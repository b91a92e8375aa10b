-- ===== src/Pipeline/Fields.antt =====
-- One line of the log, as lib/inttrace.c writes it and as atom.py splits it.
use atomicity_violation.Base.{
  ℕ, ◌<◌, ◌≡◌, ◌≢◌, refl, ap, Option, some, List, [], ◌∷◌, ◌++◌, append_assoc, arith, Bytes, codes,
  All, All-append, map,
}
use atomicity_violation.Trace.Line.{Platform, Probe, print_int, format}
use atomicity_violation.Trace.Threads.Invariant.{lines}
use atomicity_violation.Report.{split, file_lines, group, read_log}
use atomicity_violation.Pipeline.Parts.{
  Lacks, IsLineByte, IsLine, print_int-Lacks, print_int-IsLine, newlines_lem, split_part,
  split_last, file_lines_line,
}

-- ASCII, without a comma, a newline and a carriage return.
abbrev pub IsPlain : Bytes → Type 0
IsPlain s = Lacks b',' s × IsLine s

-- ASCII is decoded as it is.
abbrev pub DecodesAscii : (Bytes → Option Bytes) → Type 0
DecodesAscii decode = (s : Bytes) → All (λ c. c < 128) s → decode s ≡ some s

abbrev pub IsPlainProbe : ℕ × Probe → Type 0
IsPlainProbe (i, p) = IsPlain p.file × IsPlain p.op

module _ (platform : Platform) where
  -- The parts of a line, as atom.py gets them.
  abbrev pub fields : ℕ → Probe → List Bytes
  fields tid p =
      platform.print_pointer (platform.pthread_self tid)
      ∷ print_int p.line
      ∷ p.file
      ∷ platform.print_pointer p.addr
      ∷ (p.op ++ codes "\n")
      ∷ []

  body : ℕ → Probe → Bytes
  body tid p =
      platform.print_pointer (platform.pthread_self tid)
      ++ (codes ","
          ++ (print_int p.line
              ++ (codes ","
                  ++ (p.file
                      ++ (codes "," ++ (platform.print_pointer p.addr ++ (codes "," ++ p.op)))))))

  abbrev pub formatted : ℕ × Probe → Bytes
  formatted (tid, p) = format platform tid p

module _ (platform : Platform) (plain : (a : ℕ) → IsPlain (platform.print_pointer a)) where
  -- A line of the log is split into the values that the probe was given, if the file name, the
  -- operation and what `%p` prints hold no comma.
  pub split-format :
      (tid : ℕ) (p : Probe)
      → Lacks b',' p.file
      → Lacks b',' p.op
      → split b',' (format platform tid p) ≡ fields platform tid p
  unfolding format
  split-format tid p no_file no_op =
      rw
        (split_part b',' (platform.print_pointer (platform.pthread_self tid)) _
          (plain (platform.pthread_self tid)).0)
        (rw (split_part b',' (print_int p.line) _ (print_int-Lacks b',' p.line (omega arith))) (
          rw (split_part b',' p.file _ no_file) (
            rw (split_part b',' (platform.print_pointer p.addr) _ (plain p.addr).0) (
              rw (
                split_last b',' (p.op ++ codes "\n")
                  (All-append (λ c. c ≢ b',') p.op (codes "\n") no_op (omega arith, tt)))))))

  format-body : (tid : ℕ) (p : Probe) → format platform tid p ≡ body platform tid p ++ codes "\n"
  unfolding format body
  format-body tid p = simp append_assoc

  body-IsLine : (tid : ℕ) (p : Probe) → IsLine p.file → IsLine p.op → IsLine (body platform tid p)
  unfolding body
  body-IsLine tid p file op =
      join (platform.print_pointer (platform.pthread_self tid)) _
        (plain (platform.pthread_self tid)).1
        (
          comma,
          join (print_int p.line) _ (print_int-IsLine p.line) (
            comma,
            join p.file _ file
                (comma, join (platform.print_pointer p.addr) _ (plain p.addr).1 (comma, op)),
          ),
        )
    where
      comma : IsLineByte b','
      comma = (omega arith, (omega arith, omega arith))

      join : (xs ys : Bytes) → IsLine xs → IsLine ys → IsLine (xs ++ ys)
      join xs ys h k = All-append IsLineByte xs ys h k

  weaken : {P Q : ℕ → Type 0} → ((c : ℕ) → P c → Q c) → (s : Bytes) → All P s → All Q s
  weaken f [] h = tt
  weaken f (c ∷ s) (p, h) = (f c p, weaken f s h)

  file_lines-lines :
      (logged : List (ℕ × Probe))
      → All IsPlainProbe logged
      → file_lines (lines platform logged) ≡ map (formatted platform) logged
  unfolding lines
  file_lines-lines [] h = unfold file_lines in refl
  file_lines-lines ((tid, p) ∷ logged) ((file, op), h) = rw (format-body tid p) (
      rw append_assoc (
        rw
          (file_lines_line (body platform tid p) (lines platform logged)
            (weaken (λ c l. l.0) (body platform tid p) (body-IsLine tid p file.1 op.1)))
          (rw (file_lines-lines logged h) refl)))

  -- No byte of the log is a carriage return, and all are ASCII.
  lines-plain :
      (logged : List (ℕ × Probe))
      → All IsPlainProbe logged
      → All (λ c. (c ≢ b'\r') × (c < 128)) (lines platform logged)
  unfolding lines
  lines-plain [] h = tt
  lines-plain ((tid, p) ∷ logged) ((file, op), h) = rw (format-body tid p) (
      All-append _ (body platform tid p ++ codes "\n") _
        (All-append _ (body platform tid p) _
          (weaken (λ c l. l.1) (body platform tid p) (body-IsLine tid p file.1 op.1))
          ((omega arith, omega arith), tt))
        (lines-plain logged h))

  pub read_log-lines :
      (decode : Bytes → Option Bytes) (logged : List (ℕ × Probe))
      → DecodesAscii decode
      → All IsPlainProbe logged
      → read_log decode (lines platform logged) ≡ group (map (formatted platform) logged) []
  unfolding read_log
  read_log-lines decode logged ascii h =
      rw (ascii text (weaken (λ c l. l.1) text (lines-plain logged h)), read_log)
        (rw (newlines_lem text (weaken (λ c l. l.0) text (lines-plain logged h)))
          (ap (λ ls. group ls []) (file_lines-lines logged h)))
    where
      text : Bytes
      text = lines platform logged
