-- ===== src/Report.antt =====
-- atom.py: it groups the lines of a log by address, and prints the addresses that more than one
-- thread has accessed.
pub mod Laws
pub mod Output
pub mod Failures
use atomicity_violation.Base.{
  ℕ, Bool, true, false, not, ◌||◌, ◌&&◌, Option, none, some, List, [], ◌∷◌, ◌++◌, Bytes, codes,
  ◌==◌, get_elem?, if◌then◌else◌,
}
use atomicity_violation.Text.{same}

-- `s.split(",")`
unfoldable pub split : ℕ → Bytes → List Bytes
split sep [] = [] ∷ []
split sep (c ∷ s) = elim (split sep s) [
  | [] ↦ [] ∷ []
  | part ∷ parts ↦ if c == sep then [] ∷ (part ∷ parts) else (c ∷ part) ∷ parts
]

-- What the text mode makes of the ends of lines: `\r\n` and `\r` become `\n`. The first argument is
-- whether a `\r` stands before.
unfoldable pub newlines : Bool → Bytes → Bytes
newlines after_return [] = []
newlines after_return (c ∷ s) =
    let more = newlines (c == b'\r') s in
    if c == b'\r' then b'\n' ∷ more else if after_return && c == b'\n' then more else c ∷ more

-- `for line in f`: the lines of a text, each with its newline if it has one.
unfoldable pub file_lines : Bytes → List Bytes
file_lines [] = []
file_lines (c ∷ s) =
    let rest = file_lines s in
    if c == b'\n'
    then (c ∷ []) ∷ rest
    else elim rest [ [] ↦ (c ∷ []) ∷ [] | line ∷ lines ↦ (c ∷ line) ∷ lines ]

-- A line split at its commas, as the program holds it.
abbrev pub Log : Type 0
Log = List Bytes

-- The dict `dic`, in the order in which its keys came.
abbrev pub Groups : Type 0
Groups = List (Bytes × List Log)

-- `if addr in dic: dic[addr].append(log)`, `else: dic[addr] = [log]`
unfoldable pub add : Bytes → Log → Groups → Groups
unfolding same
add addr log [] = (addr, log ∷ []) ∷ []
add addr log ((key, logs) ∷ rest) =
    if same addr key then (key, logs ++ (log ∷ [])) ∷ rest else (key, logs) ∷ add addr log rest

-- The first loop; `none` is the `IndexError` of `log[3]`.
unfoldable pub group : List Bytes → Groups → Option Groups
unfolding split add
group [] dic = some dic
group (line ∷ lines) dic =
    let log = split b',' line in
    elim (get_elem? log 3) [ none ↦ none | some addr ↦ group lines (add addr log dic) ]

-- The thread of an entry, which has a first part whatever it holds.
unfoldable pub thread : Log → Bytes
thread [] = []
thread (tid ∷ rest) = tid

-- `pr`, after the loop over the entries of one address.
unfoldable pub is_shared : Bytes → List Log → Bool
unfolding same thread
is_shared first [] = false
is_shared first (a ∷ arr) = not (same (thread a) first) || is_shared first arr

-- Whether the address is printed.
unfoldable pub is_printed : List Log → Bool
unfolding is_shared
is_printed [] = false
is_printed (a ∷ arr) = is_shared (thread a) (a ∷ arr)

-- What is written out, line by line, and whether the script ends there by itself; it does not if an
-- index or the decoding has failed.
pub record Written : Type 0 where
  pub printed : List Bytes
  pub ended : Bool

-- What is written out next, unless the script has failed.
abbrev pub then_write : Written → Written → Written
then_write first later =
    if first.ended
    then record { printed = first.printed ++ later.printed; ended = later.ended }
    else first

abbrev pub write : Bytes → Written
write line = record { printed = line ∷ []; ended = true }

-- The lines that are printed for the entries of an address; `a[4]` may fail.
unfoldable pub print_entries : List Log → Written
unfolding thread
print_entries [] = record { printed = []; ended = true }
print_entries (a ∷ arr) = elim (get_elem? a 4) [
  | none ↦ record { printed = []; ended = false }
  | some op ↦
      then_write (write (codes "TID: " ++ (thread a ++ (codes " OP: " ++ op)))) (print_entries arr)
]

-- The second loop.
unfoldable pub print_groups : Groups → Written
unfolding is_printed print_entries
print_groups [] = record { printed = []; ended = true }
print_groups ((key, arr) ∷ rest) =
    let later = print_groups rest in
    if is_printed arr
    then then_write (write (codes "address: [" ++ (key ++ codes "]"))) (
        then_write (print_entries arr) (
          then_write (write (codes "-------------------------------------------------------"))
            later))
    else later

-- How bytes are decoded depends on the locale, so it is a parameter; `none` is the
-- `UnicodeDecodeError`.
module _ (decode : Bytes → Option Bytes) where
  -- The first loop, over the lines of the file.
  unfoldable pub read_log : Bytes → Option Groups
  unfolding newlines file_lines group
  read_log content = elim (decode content) [
    | none ↦ none
    | some text ↦ group (file_lines (newlines false text)) []
  ]

  -- The script, on the content of the file; what `print` writes is not encoded again.
  unfoldable pub run_script : Bytes → Written
  unfolding read_log print_groups
  run_script content = elim (read_log content) [
    | none ↦ record { printed = []; ended = false }
    | some dic ↦ print_groups dic
  ]
