-- ===== src/HelloWorld/Filter.antt =====
-- Which functions the pass would work on: lines 36 to 65 of HelloWorld/HelloWorld.cpp.
pub mod Laws
use atomicity_violation.Base.{
  Bool, not, ◌||◌, List, [], ◌∷◌, ◌++◌, ℕ, Bytes, codes, length, ◌==◌, if◌then◌else◌,
}
use atomicity_violation.Text.{rfind, substr, contains, mentions}
use atomicity_violation.Llvm.{Metadata, null_node, other_node, subprogram}

-- The file and the directory of the first `DISubprogram` among the metadata.
unfoldable pub location : List Metadata → Bytes × Bytes
location [] = ([], [])
location (null_node ∷ rest) = location rest
location (other_node ∷ rest) = location rest
location (subprogram file directory ∷ rest) = (file, directory)

-- `directory + "/" + file`
unfoldable pub file_path : List Metadata → Bytes
unfolding location
file_path mds = let (file, directory) = location mds in directory ++ (codes "/" ++ file)

-- The module's name up to its last dash.
unfoldable pub module_stem : Bytes → Bytes
unfolding rfind substr
module_stem name = substr name (rfind name (codes "-"))

-- The test that makes `run` return before it works on the function.
unfoldable pub is_skipped : Bytes → Bytes → Bytes → Bool
unfolding contains mentions
is_skipped fname filename directory =
    not (contains fname filename)
    || (mentions fname "core"
        || (mentions fname "std" || (length directory == 0 || mentions directory "cargo")))

-- What `run` prints on its way to the second `return` of `all()`, if it is not skipped.
unfoldable pub report : Bytes → Bytes → List Metadata → List Bytes
unfolding module_stem location is_skipped
report module_name fname mds =
    let (file, directory) = location mds in
    let filename = module_stem module_name in
    if is_skipped fname filename directory
    then []
    else (codes "FName: " ++ (fname ++ codes "\n"))
      ∷ (codes "module name: " ++ (module_name ++ codes "\n"))
      ∷ (codes "filename: " ++ (filename ++ codes "\n"))
      ∷ (codes "directory: " ++ (directory ++ codes "\n\n"))
      ∷ []
