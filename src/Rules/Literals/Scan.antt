-- ===== src/Rules/Literals/Scan.antt =====
-- crates/rsproxy-rules/src/index.rs: what one scan of a body marks, against a search for each text.
use rsproxy.Base.Members.{Listed}
use rsproxy.Base.{
  ℕ, zero, suc, ◌-◌, ◌<◌, ◌≡◌, refl, sym, ap, ap₂, ◌∙◌, subst, inl, inr, Bool, true, false, ◌||◌,
  Option, none, some, List, [], ◌∷◌, ◌==◌, ==_iff, arith, Bool-cases, get_elem?, length,
}
use rsproxy.Rules.Text.{Str, str_eq, is_empty, any, occurs, to_ascii_lowercase, lower_byte}
use rsproxy.Rules.Text.Laws.{str_eq-eq}
use rsproxy.Rules.Engine.{Engines, Lawful}
use rsproxy.Rules.Literals.{
  CompiledBodyContainsSet, next, position, literal_id, mark, is_marked, scan_loop, unseen, scan,
}

-- How many texts are not seen yet.
missing : List Bool → ℕ
missing [] = 0
missing (true ∷ bs) = missing bs
missing (false ∷ bs) = suc (missing bs)

is_marked-mark :
    (i j : ℕ) (bs : List Bool)
    → j < length bs
    → is_marked i (mark j bs) ≡ (is_marked i bs || j == i)
unfolding is_marked mark
is_marked-mark i j [] h = absurd (omega (arith, h))
is_marked-mark zero zero (b ∷ bs) h = ground arith
is_marked-mark zero (suc j) (b ∷ bs) h = ground arith
is_marked-mark (suc i) zero (b ∷ bs) h = ground arith
is_marked-mark (suc i) (suc j) (b ∷ bs) h = ground (arith, is_marked-mark i j bs (omega (arith, h)))

length-mark : (j : ℕ) (bs : List Bool) → length (mark j bs) ≡ length bs
unfolding mark
length-mark j [] = refl
length-mark zero (b ∷ bs) = refl
length-mark (suc j) (b ∷ bs) = ap suc (length-mark j bs)

missing-mark :
    (j : ℕ) (bs : List Bool)
    → j < length bs
    → is_marked j bs ≡ false
    → missing bs ≡ suc (missing (mark j bs))
unfolding is_marked mark missing
missing-mark j [] h k = absurd (omega (arith, h))
missing-mark zero (true ∷ bs) h k = cc
missing-mark zero (false ∷ bs) h k = refl
missing-mark (suc j) (true ∷ bs) h k = missing-mark j bs (omega (arith, h)) k
missing-mark (suc j) (false ∷ bs) h k = ap suc (missing-mark j bs (omega (arith, h)) k)

-- When none is missing, all are marked.
missing_none : (i : ℕ) (bs : List Bool) → missing bs ≡ 0 → i < length bs → is_marked i bs ≡ true
unfolding is_marked missing
missing_none i [] m h = absurd (omega (arith, h))
missing_none i (false ∷ bs) m h = absurd (omega (arith, m))
missing_none zero (true ∷ bs) m h = refl
missing_none (suc i) (true ∷ bs) m h = missing_none i bs m (omega (arith, h))

missing-unseen : (ts : List Str) → missing (unseen ts) ≡ length ts
unfolding missing
missing-unseen [] = refl
missing-unseen (t ∷ ts) = ap suc (missing-unseen ts)

length-unseen : (ts : List Str) → length (unseen ts) ≡ length ts
length-unseen [] = refl
length-unseen (t ∷ ts) = ap suc (length-unseen ts)

is_marked-unseen : (i : ℕ) (ts : List Str) → is_marked i (unseen ts) ≡ false
unfolding is_marked
is_marked-unseen i [] = refl
is_marked-unseen zero (t ∷ ts) = refl
is_marked-unseen (suc i) (t ∷ ts) = is_marked-unseen i ts

among : ℕ → List ℕ → Bool
among i found = any (λ j. j == i) found

or_swap : (a b c : Bool) → ((a || b) || c) ≡ (a || (b || c))
or_swap a b c = ground arith

scan_loop_lem :
    (i : ℕ) (found : List ℕ) (remaining : ℕ) (bs : List Bool)
    → i < length bs
    → ((j : ℕ) → Listed j found → j < length bs)
    → remaining ≡ missing bs
    → is_marked i (scan_loop found remaining bs) ≡ (is_marked i bs || among i found)
unfolding scan_loop among any
scan_loop_lem i [] remaining bs h below m = ground arith
scan_loop_lem i (j ∷ found) remaining bs h below m =
    let fits = below j (inl refl) in
    elim (Bool-cases (is_marked j bs)) [
      | inl e ↦
          rw (e, scan_loop)
            (scan_loop_lem i found remaining bs h (λ k l. below k (inr l)) m
              ∙ absorb (is_marked i bs) (j == i) (among i found)
                  (λ same. marked_same i j bs e same))
      | inr e ↦
          let one : missing bs ≡ suc (missing (mark j bs)) = missing-mark j bs fits e in
          let after = is_marked-mark i j bs fits in
          elim (Bool-cases (remaining - 1 == 0)) [
            | inl stop ↦
                let none_left : missing (mark j bs) ≡ 0 =
                  omega (arith, one, m, (==_iff _ _).0 stop) in
                let all =
                  missing_none i (mark j bs) none_left (omega (arith, h, length-mark j bs)) in
                rw (e, stop, scan_loop)
                  (all
                    ∙ sym (with_true (is_marked i bs) (j == i) (among i found) (sym after ∙ all)))
            | inr go ↦
                rw (e, go, scan_loop)
                  (scan_loop_lem i found (remaining - 1) (mark j bs)
                      (omega (arith, h, length-mark j bs))
                      (λ k l. omega (arith, below k (inr l), length-mark j bs))
                      (omega (arith, one, m))
                    ∙ ap (λ b. b || among i found) after
                    ∙ or_swap (is_marked i bs) (j == i) (among i found))
          ]
    ]
  where
    absorb : (a b c : Bool) → (b ≡ true → a ≡ true) → (a || c) ≡ (a || (b || c))
    absorb a true c f = rw (f refl) refl
    absorb a false c f = refl

    with_true : (a b c : Bool) → (a || b) ≡ true → (a || (b || c)) ≡ true
    with_true a b c h = ground arith

    marked_same :
        (i j : ℕ) (bs : List Bool) → is_marked j bs ≡ true → (j == i) ≡ true → is_marked i bs ≡ true
    marked_same i j bs e same = subst (λ k. is_marked k bs ≡ true) ((==_iff j i).0 same) e

next-some : (o : Option ℕ) {i : ℕ} → next o ≡ some i → (j : ℕ) × (o ≡ some j) × (i ≡ suc j)
next-some none h = cc
next-some (some j) h = (j, refl, cc)

position_lem :
    (text : Str) (ts : List Str) (i : ℕ)
    → position text ts ≡ some i
    → (get_elem? ts i ≡ some text) × (i < length ts)
unfolding position
position_lem text [] i h = cc
position_lem text (t ∷ ts) i h = elim (Bool-cases (str_eq t text)) [
  | inl e ↦
      let zero_at : 0 ≡ i = cc (rw (e, position) at h) in
      subst (λ k. (get_elem? (t ∷ ts) k ≡ some text) × (k < length (t ∷ ts))) zero_at
        (ap some (str_eq-eq t text e), omega arith)
  | inr e ↦
      let (j, at_j, shift) = next-some (position text ts) (rw (e, position) at h) in
      let (found, fits) = position_lem text ts j at_j in
      subst (λ k. (get_elem? (t ∷ ts) k ≡ some text) × (k < length (t ∷ ts))) (sym shift)
        (found, omega (arith, fits))
]

lower_byte_idem : (b : ℕ) → lower_byte (lower_byte b) ≡ lower_byte b
unfolding lower_byte
lower_byte_idem b = ground arith

to_ascii_lowercase_idem :
    (s : Str) → to_ascii_lowercase (to_ascii_lowercase s) ≡ to_ascii_lowercase s
to_ascii_lowercase_idem [] = refl
to_ascii_lowercase_idem (b ∷ s) = ap₂ ◌∷◌ (lower_byte_idem b) (to_ascii_lowercase_idem s)

same_truth : (a b : Bool) → (a ≡ true → b ≡ true) → (b ≡ true → a ≡ true) → a ≡ b
same_truth true b f g = sym (f refl)
same_truth false true f g = g refl
same_truth false false f g = refl

among-Listed : (i : ℕ) (found : List ℕ) → among i found ≡ true → Listed i found
unfolding among any
among-Listed i [] h = cc
among-Listed i (j ∷ found) h = elim (Bool-cases (j == i)) [
  | inl e ↦ inl (sym ((==_iff j i).0 e))
  | inr e ↦ inr (among-Listed i found (rw e at h))
]

Listed-among : (i : ℕ) (found : List ℕ) → Listed i found → among i found ≡ true
unfolding among any
Listed-among i [] h = absurd h
Listed-among i (j ∷ found) (inl e) = ground arith
Listed-among i (j ∷ found) (inr h) = ground (arith, Listed-among i found h)

module _ ⦃E : Engines⦄ (laws : Lawful E) where
  scan-among :
      (set : CompiledBodyContainsSet) (text : Str) (i : ℕ)
      → i < length set.literals
      → is_marked i (scan set text) ≡ among i (E.find_overlapping_insensitive set.literals text)
  unfolding scan
  scan-among set text i h =
      rw (not_empty set.literals h, scan)
        (scan_loop_lem i found (length set.literals) (unseen set.literals) (omega (arith, h, size))
            (λ j l. omega (arith, laws.finds_below set.literals text j l, size))
            (sym (missing-unseen set.literals))
          ∙ ap (λ b. b || among i found) (is_marked-unseen i set.literals))
    where
      found : List ℕ
      found = E.find_overlapping_insensitive set.literals text

      size : length (unseen set.literals) ≡ length set.literals
      size = length-unseen set.literals

      not_empty : (ts : List Str) → i < length ts → is_empty ts ≡ false
      not_empty [] k = absurd (omega (arith, k))
      not_empty (t ∷ ts) k = refl

  -- A text that has an identifier is marked exactly if it occurs, but for the case of letters.
  pub scan_lem :
      (set : CompiledBodyContainsSet) (literal text : Str) (i : ℕ)
      → literal_id set literal ≡ some i
      → is_marked i (scan set text) ≡ occurs (to_ascii_lowercase literal) (to_ascii_lowercase text)
  unfolding literal_id
  scan_lem set literal text i h = elim (Bool-cases (any (str_eq literal) set.sources)) [
    | inr e ↦ absurd (none-ne-some (rw (e, literal_id) at h))
    | inl e ↦
        let (at_i, fits) =
          position_lem (to_ascii_lowercase literal) set.literals i (rw (e, literal_id) at h) in
        let low = to_ascii_lowercase_idem literal in
        let found = E.find_overlapping_insensitive set.literals text in
        scan-among set text i fits
        ∙ same_truth (among i found) (occurs (to_ascii_lowercase literal) (to_ascii_lowercase text))
            (λ m.
              subst (λ p. occurs p (to_ascii_lowercase text) ≡ true) low
                (laws.finds_only set.literals text i (to_ascii_lowercase literal) at_i
                  (among-Listed i found m)))
            (λ o. Listed-among i found (
              laws.finds_insensitive set.literals text i (to_ascii_lowercase literal) at_i
                (subst (λ p. occurs p (to_ascii_lowercase text) ≡ true) (sym low) o)))
  ]
    where
      none-ne-some : {k : ℕ} → none ≡ some k → ⊥
      none-ne-some c = cc
