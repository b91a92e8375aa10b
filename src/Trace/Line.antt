-- ===== src/Trace/Line.antt =====
-- One line of the log: the format "%p,%d,%s,%p,%s\n" of lines 27 and 34 of lib/inttrace.c.
use Prim.Native.Nat.{zero, suc}
use atomicity_violation.Base.{
  ℕ, ◌+◌, ◌-◌, ◌/◌, ◌%◌, ◌^◌, [], ◌∷◌, ◌++◌, Bytes, codes, ltb, if◌then◌else◌,
}

-- `int`, as its 32 bits.
abbrev pub Int32 : Type 0
Int32 = ℕ

-- The arguments of `_probe_` and `_probe_lock_`.
pub record Probe : Type 0 where
  pub line : Int32
  pub file : Bytes
  pub op : Bytes
  pub addr : ℕ

-- The digits of a number below 10 ^ `fuel`, the leading zeros left out.
unfoldable pub digits : ℕ → ℕ → Bytes → Bytes
digits zero n out = out
digits (suc fuel) n out =
    let out' = (b'0' + n % 10) ∷ out in
    let more = digits fuel (n / 10) out' in if ltb n 10 then out' else more

-- `%d` of an `int` given by its 32 bits; ten digits are enough.
unfoldable pub print_int : Int32 → Bytes
unfolding digits
print_int n = if ltb n (2 ^ 31) then digits 10 n [] else b'-' ∷ digits 10 (2 ^ 32 - n) []

-- What is left to the implementation: how `%p` prints a pointer, and what `pthread_self()` is in a
-- thread. The threads are numbered in the order in which they are made, and a thread that is joined
-- may leave its `pthread_self()` to a later one.
pub record Platform : Type 0 where
  pub print_pointer : ℕ → Bytes
  pub pthread_self : ℕ → ℕ

module _ (platform : Platform) where
  unfoldable pub format : ℕ → Probe → Bytes
  unfolding print_int
  format i p =
      platform.print_pointer (platform.pthread_self i)
      ++ (codes ","
          ++ (print_int p.line
              ++ (codes ","
                  ++ (p.file
                      ++ (codes ","
                          ++ (platform.print_pointer p.addr
                              ++ (codes "," ++ (p.op ++ codes "\n"))))))))
