-- ===== src/Pipeline/Printed.antt =====
-- What atom.py prints for a log that lib/inttrace.c has written.
use atomicity_violation.Base.{
  ℕ, ◌≡◌, refl, ap, ◌∙◌, Option, none, some, true, List, [], ◌∷◌, Bytes, All, if◌then◌else◌, map,
}
use atomicity_violation.Trace.Line.{Platform, Probe}
use atomicity_violation.Text.{same}
use atomicity_violation.Trace.Threads.{System, Reach}
use atomicity_violation.Trace.Threads.Laws.{text-lines}
use atomicity_violation.Report.Output.{AllWide, add-AllWide, render, print_groups-render}
use atomicity_violation.Report.{Log, Groups, split, add, group, is_printed, read_log, run_script}
use atomicity_violation.Report.Laws.{
  report, report-NodupKeys, NodupKeys, lookup, lookup-group, entries, report-entries,
}
use atomicity_violation.Pipeline.Fields.{
  IsPlain, IsPlainProbe, fields, formatted, split-format, DecodesAscii, read_log-lines,
}

module _ (platform : Platform) where
  -- The specification: the accesses to an address, among the probes in the order of the log.
  unfoldable pub accesses : Bytes → List (ℕ × Probe) → List Log
  accesses k [] = []
  accesses k ((tid, p) ∷ logged) =
      let more = accesses k logged in
      if same k (platform.print_pointer p.addr) then fields platform tid p ∷ more else more

module _ (platform : Platform) (plain : (a : ℕ) → IsPlain (platform.print_pointer a))
    (decode : Bytes → Option Bytes) (ascii : DecodesAscii decode) where
  group_line :
      (tid : ℕ) (p : Probe) (line : Bytes) (ls : List Bytes) (dic : Groups)
      → split b',' line ≡ fields platform tid p
      → group (line ∷ ls) dic
        ≡ group ls (add (platform.print_pointer p.addr) (fields platform tid p) dic)
  unfolding group
  group_line tid p line ls dic q = rw (q, group) (rw q refl)

  group-formatted :
      (logged : List (ℕ × Probe)) (dic : Groups)
      → All IsPlainProbe logged
      → AllWide dic
      → (dic' : Groups) × (group (map (formatted platform) logged) dic ≡ some dic') × AllWide dic'
  group-formatted [] dic h w = (dic, unfold group in refl, w)
  group-formatted ((tid, p) ∷ logged) dic ((file, op), h) w =
      let added = add (platform.print_pointer p.addr) (fields platform tid p) dic in
      let wide : AllWide added =
        add-AllWide (platform.print_pointer p.addr) (fields platform tid p) dic (_, refl) w in
      let (dic', e, w') = group-formatted logged added h wide in
      let q = split-format platform plain tid p file.0 op.0 in
      let first =
        group_line tid p (formatted platform (tid, p)) (map (formatted platform) logged) dic q in
      (dic', first ∙ e, w')

  entries_line :
      (k : Bytes) (tid : ℕ) (p : Probe) (line : Bytes) (ls : List Bytes)
      → split b',' line ≡ fields platform tid p
      → entries k (line ∷ ls) ≡ (
          if same k (platform.print_pointer p.addr)
          then fields platform tid p ∷ entries k ls
          else entries k ls)
  unfolding entries
  entries_line k tid p line ls q = rw (q, entries) (rw q refl)

  entries-formatted :
      (k : Bytes) (logged : List (ℕ × Probe))
      → All IsPlainProbe logged
      → entries k (map (formatted platform) logged) ≡ accesses platform k logged
  unfolding accesses
  entries-formatted k [] h = unfold entries in refl
  entries-formatted k ((tid, p) ∷ logged) ((file, op), h) =
      let q = split-format platform plain tid p file.0 op.0 in
      entries_line k tid p (formatted platform (tid, p)) (map (formatted platform) logged) q
      ∙ rw (entries-formatted k logged h) refl

  -- The script comes to its end by itself, and writes out the groups that `report` lists.
  pub run_script-text :
      {s : System}
      → Reach platform s
      → s.shared.owner ≡ none
      → All IsPlainProbe s.shared.logged
      → (dic : Groups) × (run_script decode s.shared.text
          ≡ record { printed = render (report dic); ended = true })
        × NodupKeys (report dic)
        × ((k : Bytes)
            → lookup k (report dic) ≡ (
                if is_printed (accesses platform k s.shared.logged)
                then accesses platform k s.shared.logged
                else []))
  unfolding run_script
  run_script-text {s} r free h =
      let (dic, e, w) = group-formatted s.shared.logged [] h tt in
      let read : read_log decode s.shared.text ≡ some dic =
        ap (read_log decode) (text-lines platform r free)
        ∙ read_log-lines platform plain decode s.shared.logged ascii h
        ∙ e in
      (
        dic,
        rw (read, run_script) (print_groups-render dic w),
        report-NodupKeys dic
            (lookup-group [] (map (formatted platform) s.shared.logged) [] tt dic e).0,
        λ k.
            report-entries k (map (formatted platform) s.shared.logged) dic e
            ∙ rw (entries-formatted k s.shared.logged h),
      )
