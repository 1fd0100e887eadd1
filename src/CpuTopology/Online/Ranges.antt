-- ===== src/CpuTopology/Online/Ranges.antt =====
-- The list of ranges that the kernel prints, and what `_cputopFillLogicCPU` makes of it.
use task_lunev.Base.{
  ℕ, zero, suc, ◌+◌, ◌-◌, ◌*◌, ◌^◌, ◌≤◌, ◌<◌, ◌≡◌, arith, refl, ap, sym, ◌∙◌, true, false,
  ℕ_discrete, eq→==, ne→==, if◌then◌else◌, ◌==◌, lt→ltb, none, le→leb, lt→leb_false,
}
use task_lunev.Base.{List, [], ◌∷◌, ◌++◌, append_assoc, append-nil, length, length-append, pos, ℤ}
use task_lunev.Memory.{Bytes, ok}
use task_lunev.BinArray.Create.{Allocator}
use task_lunev.CpuTopology.Laws.{holding}
use task_lunev.CpuTopology.Online.{
  behind_dash, tokens, with_word, fill_range, fill_token, fill_tokens, fill_logic_cpu, entries,
}
use task_lunev.CpuTopology.Online.Digits.{
  shown, shown_some, AllDigits, ends_number, shown-AllDigits, atoi-shown, behind_dash_none,
  digit_tests,
}

-- The processors `first`, ..., `first + more`, printed as one number where `more` is 0.
pub record Range : Type 0 where
  pub first : ℕ
  pub more : ℕ

abbrev pub print_range : Range → Bytes
print_range r =
    if r.more == 0 then shown r.first else shown r.first ++ (b'-' ∷ shown (r.first + r.more))

-- The ranges with commas between them, and the end of the line.
abbrev pub print : Range → List Range → Bytes
print r [] = print_range r ++ (10 ∷ [])
print r (s ∷ rs) = print_range r ++ (b',' ∷ print s rs)

abbrev pub ids_from : ℕ → ℕ → List ℤ
ids_from first zero = pos first ∷ []
ids_from first (suc more) = pos first ∷ ids_from (first + 1) more

abbrev pub ids_of : Range → List Range → List ℤ
ids_of r [] = ids_from r.first r.more
ids_of r (s ∷ rs) = ids_from r.first r.more ++ ids_of s rs

-- Every id has at most 9 digits.
abbrev pub AreShort : Range → List Range → Type 0
AreShort r [] = r.first + r.more < 10 ^ 9
AreShort r (s ∷ rs) = (r.first + r.more < 10 ^ 9) × AreShort s rs

-- No comma.
abbrev IsToken : Bytes → Type 0
IsToken [] = Unit {0}
IsToken (b ∷ bs) = ((b == b',') ≡ false) × IsToken bs

tokens_word : (word xs ys : Bytes) → IsToken xs → tokens word (xs ++ ys) ≡ tokens (word ++ xs) ys
unfolding tokens
tokens_word word [] ys h = ap (λ w. tokens w ys) (sym (append-nil word))
tokens_word word (x ∷ xs) ys h = rw h.0 (
    tokens_word (word ++ (x ∷ [])) xs ys h.1
    ∙ ap (λ w. tokens w ys) (append_assoc word (x ∷ []) xs))

digits-IsToken : (xs : Bytes) → AllDigits xs → IsToken xs
digits-IsToken [] h = tt
digits-IsToken (x ∷ xs) h = ((digit_tests x h.0).3, digits-IsToken xs h.1)

IsToken-append : (xs ys : Bytes) → IsToken xs → IsToken ys → IsToken (xs ++ ys)
IsToken-append [] ys h k = k
IsToken-append (x ∷ xs) ys h k = (h.0, IsToken-append xs ys h.1 k)

print_range-IsToken : (r : Range) → IsToken (print_range r)
print_range-IsToken r = elim (ℕ_discrete r.more 0) [
  | yes e ↦ rw (eq→== r.more 0 e) (digits-IsToken _ (shown-AllDigits r.first))
  | no d ↦ rw (ne→== r.more 0 d) (
      IsToken-append (shown r.first) _ (digits-IsToken _ (shown-AllDigits r.first))
        ((refl, digits-IsToken _ (shown-AllDigits (r.first + r.more)))))
]

-- The loop over a range that fits.
fill_range-ids :
    (slots first more : ℕ)
    → more < slots
    → first + more + 1 < 2 ^ 31
    → fill_range slots (pos first) (pos (first + more)) ≡ ok (ids_from first more)
unfolding fill_range
fill_range-ids zero first more h k = absurd (omega arith)
fill_range-ids (suc slots) first zero h k =
    rw (
      lt→ltb (first + 1) (2 ^ 31) (omega arith),
      lt→leb_false (first + 1) (first + 0) (omega arith),
    )
fill_range-ids (suc slots) first (suc more) h k =
    let e : first + suc more ≡ first + 1 + more = omega arith in
    rw (
      lt→ltb (first + 1) (2 ^ 31) (omega arith),
      le→leb (first + 1) (first + suc more) (omega arith),
      e,
      fill_range-ids slots (first + 1) more (omega arith) (omega arith),
    )

fill_token-ids :
    (slots first more : ℕ) (end : Bytes)
    → more < slots
    → first + more < 10 ^ 9
    → ends_number end ≡ true
    → behind_dash end ≡ none
    → fill_token slots (print_range (record { first = first; more = more }) ++ end)
      ≡ ok (ids_from first more)
unfolding fill_token behind_dash
fill_token-ids slots first zero end h k e d = rw (
  fill_token,
  behind_dash_none (shown first) end (shown-AllDigits first),
  d,
  atoi-shown first end (omega arith) e,
  lt→ltb 0 slots h,
)
fill_token-ids slots first (suc more) end h k e d =
    let rest = b'-' ∷ (shown (first + suc more) ++ end) in
    let text : print_range (record { first = first; more = suc more }) ++ end
        ≡ shown first ++ rest =
      rw (ne→== (suc more) 0 (λ q. omega arith))
        (append_assoc (shown first) (b'-' ∷ shown (first + suc more)) end) in
    rw (
      text,
      fill_token,
      behind_dash_none (shown first) rest (shown-AllDigits first),
      text,
      atoi-shown first rest (omega arith) refl,
      atoi-shown (first + suc more) end k e,
      fill_range-ids slots first (suc more) h (omega arith),
    )

length-ids_from : (first more : ℕ) → length (ids_from first more) ≡ more + 1
length-ids_from first zero = omega arith
length-ids_from first (suc more) = omega (arith, length-ids_from (first + 1) more)

print_range_some : (r : Range) → 0 < length (print_range r)
print_range_some r = elim (ℕ_discrete r.more 0) [
  | yes e ↦ rw (eq→== r.more 0 e) (shown_some r.first)
  | no d ↦
      rw (ne→== r.more 0 d)
        (omega (arith, length-append (shown r.first) (b'-' ∷ shown (r.first + r.more))))
]

with_word_some :
    (word : Bytes) (words : List Bytes) → 0 < length word → with_word word words ≡ word ∷ words
with_word_some [] words h = absurd (omega arith)
with_word_some (b ∷ bs) words h = refl

tokens_first :
    (r : Range) (ys : Bytes)
    → tokens [] (print_range r ++ (b',' ∷ ys)) ≡ print_range r ∷ tokens [] ys
unfolding tokens
tokens_first r ys =
    tokens_word [] (print_range r) (b',' ∷ ys) (print_range-IsToken r)
    ∙ with_word_some (print_range r) (tokens [] ys) (print_range_some r)

tokens_last :
    (r : Range) → tokens [] (print_range r ++ (10 ∷ [])) ≡ (print_range r ++ (10 ∷ [])) ∷ []
unfolding tokens
tokens_last r =
    let text = print_range r ++ (10 ∷ []) in
    let token = IsToken-append (print_range r) (10 ∷ []) (print_range-IsToken r) ((refl, tt)) in
    ap (tokens []) (sym (append-nil text))
    ∙ tokens_word [] text [] token
    ∙ with_word_some text [] (omega (arith, length-append (print_range r) (10 ∷ [])))

fill_tokens-print :
    (slots : ℕ) (r : Range) (rs : List Range)
    → length (ids_of r rs) ≤ slots
    → AreShort r rs
    → fill_tokens slots (tokens [] (print r rs)) ≡ ok (ids_of r rs)
unfolding fill_tokens behind_dash
fill_tokens-print slots r [] h k =
    let one =
      fill_token-ids slots r.first r.more (10 ∷ []) (omega (arith, length-ids_from r.first r.more))
        k refl refl in
    rw (tokens_last r, one) (ap ok (append-nil (ids_from r.first r.more)))
fill_tokens-print slots r (s ∷ rs) h k =
    let ids = ids_from r.first r.more in
    let size = length-append ids (ids_of s rs) in
    let one : fill_token slots (print_range r) ≡ ok ids =
      ap (fill_token slots) (sym (append-nil (print_range r)))
      ∙ fill_token-ids slots r.first r.more [] (omega (arith, size, length-ids_from r.first r.more))
          k.0 refl refl in
    rw (
      tokens_first r (print s rs),
      one,
      fill_tokens-print (slots - length ids) s rs (omega (arith, size)) k.1,
    )

some_id : (r : Range) (rs : List Range) → 0 < length (ids_of r rs)
some_id r [] = omega (arith, length-ids_from r.first r.more)
some_id r (s ∷ rs) =
    omega
      (arith, length-append (ids_from r.first r.more) (ids_of s rs), length-ids_from r.first r.more)

-- With an allocator that grants the blocks, _cputopFillLogicCPU reads a line of comma separated
-- numbers and ranges of at most 256 processors in all, none with a number of more than 9 digits,
-- back as the processors of the ranges in order.
pub fill_logic_cpu-print :
    (m : Allocator) (r : Range) (rs : List Range)
    → m.grants (256 * 8) ≡ true
    → m.grants (length (ids_of r rs) * 8) ≡ true
    → length (ids_of r rs) ≤ 256
    → AreShort r rs
    → fill_logic_cpu m (print r rs) ≡ ok (holding (entries (ids_of r rs)) (length (ids_of r rs)))
unfolding fill_logic_cpu
fill_logic_cpu-print m r rs g h fits k =
    let some_ids = some_id r rs in
    rw (g, fill_tokens-print 256 r rs fits k, ne→== (length (ids_of r rs)) 0 (λ e. omega arith), h)
