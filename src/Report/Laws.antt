-- ===== src/Report/Laws.antt =====
-- Which addresses are printed, and with which entries.
use atomicity_violation.Base.{
  ℕ, zero, suc, ◌≡◌, ◌≢◌, ◌↔◌, inl, inr, refl, sym, ◌∙◌, subst, true, Option, none, some, List, [],
  ◌∷◌, ◌++◌, append_assoc, append-nil, arith, Bytes, get_elem?, Bool-cases, if◌then◌else◌,
}
use mathlib.Core.Option.{some-injective}
use atomicity_violation.Text.{same}
use atomicity_violation.Text.Laws.{same_iff}
use atomicity_violation.Report.{Log, Groups, split, add, group, thread, is_shared, is_printed}

-- Entry `i` of the list.
abbrev pub At : List Log → ℕ → Log → Type 0
At arr i a = get_elem? arr i ≡ some a

-- Two entries of different threads.
pub record IsContended (arr : List Log) : Type 0 where
  pub first : ℕ
  pub second : ℕ
  pub one : Log
  pub other : Log
  pub first_at : At arr first one
  pub second_at : At arr second other
  pub threads_differ : thread one ≢ thread other

is_shared_sound :
    (first : Bytes) (arr : List Log)
    → is_shared first arr ≡ true
    → (i : ℕ) × (a : Log) × At arr i a × (thread a ≢ first)
unfolding is_shared
is_shared_sound first [] h = cc
is_shared_sound first (a ∷ arr) h = elim (Bool-cases (same (thread a) first)) [
  | inl s ↦ let (i, b, at, ne) = is_shared_sound first arr (ground arith) in (suc i, b, at, ne)
  | inr d ↦ (0, a, refl, λ e. cc (d, (same_iff (thread a) first).1 e))
]

is_shared_complete :
    (first : Bytes) (arr : List Log) (i : ℕ) (a : Log)
    → At arr i a
    → thread a ≢ first
    → is_shared first arr ≡ true
unfolding is_shared
is_shared_complete first [] i a at ne = cc
is_shared_complete first (b ∷ arr) zero a at ne = ground (arith, same_iff (thread b) first)
is_shared_complete first (b ∷ arr) (suc i) a at ne =
    ground (arith, is_shared_complete first arr i a at ne)

is_printed_sound : (arr : List Log) → is_printed arr ≡ true → IsContended arr
unfolding is_printed
is_printed_sound [] h = cc
is_printed_sound (a ∷ arr) h =
    let (i, b, at, ne) = is_shared_sound (thread a) (a ∷ arr) h in
    record {
      first = i;
      second = 0;
      one = b;
      other = a;
      first_at = at;
      second_at = refl;
      threads_differ = ne;
    }

is_printed_complete : (arr : List Log) → IsContended arr → is_printed arr ≡ true
unfolding is_printed
is_printed_complete [] c = cc (c.first_at)
is_printed_complete (a ∷ arr) c = elim (Bool-cases (same (thread c.one) (thread a))) [
  | inl s ↦
      is_shared_complete (thread a) (a ∷ arr) c.second c.other c.second_at
        (λ e. c.threads_differ ((same_iff _ _).0 s ∙ sym e))
  | inr d ↦
      is_shared_complete (thread a) (a ∷ arr) c.first c.one c.first_at
        (λ e. cc (d, (same_iff (thread c.one) (thread a)).1 e))
]

pub is_printed_iff : (arr : List Log) → (is_printed arr ≡ true) ↔ IsContended arr
is_printed_iff arr = (is_printed_sound arr, is_printed_complete arr)

-- The entries of an address in the dict; none if it is no key.
abbrev pub lookup : Bytes → Groups → List Log
lookup k [] = []
lookup k ((key, arr) ∷ rest) = if same k key then arr else lookup k rest

-- The specification: the lines of the log at the address, in the log's order.
unfoldable pub entries : Bytes → List Bytes → List Log
entries k [] = []
entries k (line ∷ lines) =
    let log = split b',' line in
    let more = entries k lines in
    elim (get_elem? log 3) [ none ↦ more | some addr ↦ if same k addr then log ∷ more else more ]

lookup-add :
    (k addr : Bytes) (log : Log) (dic : Groups)
    → lookup k (add addr log dic) ≡ lookup k dic ++ (if same k addr then log ∷ [] else [])
unfolding add
lookup-add k addr log [] = ground arith
lookup-add k addr log ((key, arr) ∷ rest) = elim (Bool-cases (same addr key)) [
  | inl s ↦
      let e : addr ≡ key = (same_iff addr key).0 s in
      rw (s, add) (rw e (ground (arith, append-nil (lookup k rest))))
  | inr d ↦
      rw (d, add)
        (ground (
          arith,
          lookup-add k addr log rest,
          same_iff k key,
          same_iff addr key,
          same_iff k addr,
          append-nil arr,
        ))
]

-- No key is listed twice.
abbrev pub IsAbsent : Bytes → Groups → Type 0
IsAbsent k [] = Unit
IsAbsent k ((key, arr) ∷ rest) = (k ≢ key) × IsAbsent k rest

abbrev pub NodupKeys : Groups → Type 0
NodupKeys [] = Unit
NodupKeys ((key, arr) ∷ rest) = IsAbsent key rest × NodupKeys rest

IsAbsent-add :
    (k addr : Bytes) (log : Log) (dic : Groups)
    → k ≢ addr
    → IsAbsent k dic
    → IsAbsent k (add addr log dic)
unfolding add
IsAbsent-add k addr log [] ne a = (ne, tt)
IsAbsent-add k addr log ((key, arr) ∷ rest) ne a = elim (Bool-cases (same addr key)) [
  | inl s ↦ rw (s, add) a
  | inr d ↦ rw (d, add) (a.0, IsAbsent-add k addr log rest ne a.1)
]

add-NodupKeys :
    (addr : Bytes) (log : Log) (dic : Groups) → NodupKeys dic → NodupKeys (add addr log dic)
unfolding add
add-NodupKeys addr log [] u = (tt, tt)
add-NodupKeys addr log ((key, arr) ∷ rest) u = elim (Bool-cases (same addr key)) [
  | inl s ↦ rw (s, add) u
  | inr d ↦
      rw (d, add)
        (
          IsAbsent-add key addr log rest (λ e. cc (d, (same_iff addr key).1 (sym e))) u.0,
          add-NodupKeys addr log rest u.1,
        )
]

-- The specification: the groups of an address that two threads have accessed.
unfoldable pub report : Groups → Groups
unfolding is_printed
report [] = []
report ((key, arr) ∷ rest) =
    let later = report rest in if is_printed arr then (key, arr) ∷ later else later

lookup_absent : (k : Bytes) (dic : Groups) → IsAbsent k dic → lookup k (report dic) ≡ []
unfolding report
lookup_absent k [] a = refl
lookup_absent k ((key, arr) ∷ rest) a =
    ground (arith, a.0, same_iff k key, lookup_absent k rest a.1)

lookup-report :
    (k : Bytes) (dic : Groups)
    → NodupKeys dic
    → lookup k (report dic) ≡ (if is_printed (lookup k dic) then lookup k dic else [])
unfolding report is_printed
lookup-report k [] u = refl
lookup-report k ((key, arr) ∷ rest) u = elim (Bool-cases (same k key)) [
  | inl s ↦
      let e : k ≡ key = (same_iff k key).0 s in
      elim (Bool-cases (is_printed arr)) [
        | inl p ↦ rw (p, report) (rw s (rw p))
        | inr p ↦ rw (p, report) (rw s (rw p (rw e (lookup_absent key rest u.0))))
      ]
  | inr d ↦ elim (Bool-cases (is_printed arr)) [
    | inl p ↦ rw (p, report) (rw d (lookup-report k rest u.1))
    | inr p ↦ rw (p, report) (rw d (lookup-report k rest u.1))
  ]
]

pub lookup-group :
    (k : Bytes) (lines : List Bytes) (dic : Groups)
    → NodupKeys dic
    → (dic' : Groups) → group lines dic ≡ some dic'
    → NodupKeys dic' × (lookup k dic' ≡ lookup k dic ++ entries k lines)
unfolding group entries
lookup-group k [] dic u dic' e =
    let same_dic : dic ≡ dic' = some-injective dic dic' e in
    (subst NodupKeys same_dic u, rw (← same_dic) (sym (append-nil (lookup k dic))))
lookup-group k (line ∷ lines) dic u dic' e = go (get_elem? (split b',' line) 3) refl (λ addr.
    lookup-group k lines (add addr (split b',' line) dic)
      (add-NodupKeys addr (split b',' line) dic u) dic')
  where
    log : Log
    log = split b',' line

    appended :
        (addr : Bytes) (more : List Log)
        → lookup k (add addr log dic) ++ more
          ≡ lookup k dic ++ (if same k addr then log ∷ more else more)
    appended addr more = rw lookup-add (elim (Bool-cases (same k addr)) [
      | inl s ↦ rw s (append_assoc (lookup k dic) (log ∷ []) more)
      | inr d ↦ rw d (rw append-nil refl)
    ])

    go :
        (o : Option Bytes)
        → get_elem? log 3 ≡ o
        → ((addr : Bytes)
            → group lines (add addr log dic) ≡ some dic'
            → NodupKeys dic' × (lookup k dic' ≡ lookup k (add addr log dic) ++ entries k lines))
        → NodupKeys dic' × (lookup k dic' ≡ lookup k dic ++ entries k (line ∷ lines))
    go none q ih = cc (rw (q, group) at e)
    go (some addr) q ih =
        let (unique, found) = ih addr (rw (q, group) at e) in
        (unique, rw (q, entries) (found ∙ appended addr (entries k lines)))

IsAbsent-report : (k : Bytes) (dic : Groups) → IsAbsent k dic → IsAbsent k (report dic)
unfolding report
IsAbsent-report k [] a = tt
IsAbsent-report k ((key, arr) ∷ rest) (ne, a) = elim (Bool-cases (is_printed arr)) [
  | inl p ↦ rw (p, report) (ne, IsAbsent-report k rest a)
  | inr p ↦ rw (p, report) (IsAbsent-report k rest a)
]

pub report-NodupKeys : (dic : Groups) → NodupKeys dic → NodupKeys (report dic)
unfolding report
report-NodupKeys [] u = tt
report-NodupKeys ((key, arr) ∷ rest) (a, u) = elim (Bool-cases (is_printed arr)) [
  | inl p ↦ rw (p, report) (IsAbsent-report key rest a, report-NodupKeys rest u)
  | inr p ↦ rw (p, report) (report-NodupKeys rest u)
]

-- If the lines of a log are grouped without an error, then what is printed for an address is every
-- line of the log at that address, in the log's order, if `is_printed` holds of them, and nothing
-- otherwise.
pub report-entries :
    (k : Bytes) (lines : List Bytes) (dic : Groups)
    → group lines [] ≡ some dic
    → lookup k (report dic) ≡ (if is_printed (entries k lines) then entries k lines else [])
report-entries k lines dic e =
    let (unique, found) = lookup-group k lines [] tt dic e in lookup-report k dic unique ∙ rw found
