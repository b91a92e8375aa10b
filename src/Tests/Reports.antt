-- ===== src/Tests/Reports.antt =====
-- What atom.py writes out for some logs.
use atomicity_violation.Base.{◌≡◌, ◌↔◌, refl, true, false, some, List, [], ◌∷◌, codes, ◌++◌, Bytes}
use atomicity_violation.Report.{Groups, group, print_groups, run_script}
use atomicity_violation.Report.Failures.{ContendedWide, print_groups-ended}
use atomicity_violation.Tests.Texts.{decode_ascii}

abbrev log_lines : List Bytes
log_lines = codes "a,7,f,x,store\n" ∷ (codes "b,8,f,x,load\n" ∷ (codes "b,9,f,y,load\n" ∷ []))

abbrev at_x : List (List Bytes)
at_x =
    (codes "a" ∷ (codes "7" ∷ (codes "f" ∷ (codes "x" ∷ (codes "store\n" ∷ [])))))
    ∷ ((codes "b" ∷ (codes "8" ∷ (codes "f" ∷ (codes "x" ∷ (codes "load\n" ∷ []))))) ∷ [])

abbrev at_y : List (List Bytes)
at_y = (codes "b" ∷ (codes "9" ∷ (codes "f" ∷ (codes "y" ∷ (codes "load\n" ∷ []))))) ∷ []

abbrev grouped : Groups
grouped = (codes "x", at_x) ∷ ((codes "y", at_y) ∷ [])

grouped_done : group log_lines [] ≡ some grouped
unfolding group
grouped_done = refl

printed : print_groups grouped ≡ record {
  printed =
      codes "address: [x]"
      ∷ (codes "TID: a OP: store\n"
          ∷ (codes "TID: b OP: load\n"
              ∷ (codes "-------------------------------------------------------" ∷ [])));
  ended = true;
}
unfolding print_groups
printed = refl

-- The first group has been printed when the second is found to lack an operation.
cut_short :
    run_script decode_ascii (
      codes "a,7,f,x,store\n"
      ++ (codes "b,8,f,x,load\r\n" ++ (codes "a,7,f,y\n" ++ codes "b,8,f,y\n")))
    ≡ record {
      printed =
          codes "address: [x]"
          ∷ (codes "TID: a OP: store\n"
              ∷ (codes "TID: b OP: load\n"
                  ∷ (codes "-------------------------------------------------------"
                      ∷ (codes "address: [y\n]" ∷ []))));
      ended = false;
    }
unfolding run_script print_groups group
cut_short = refl

-- Both entries of `x` have five parts.
print_groups-ended_example : (print_groups grouped).ended ≡ true ↔ ContendedWide grouped
print_groups-ended_example = print_groups-ended grouped
