-- ===== src/RawCopy/Ends.antt =====
-- How the calls of src/engines/raw.rs end: with enough fuel there is a result, and it is as stated.
use dfdisk.Prelude.{
  ℕ, zero, suc, ◌+◌, ◌-◌, ◌≤◌, ◌<◌, ◌≡◌, refl, sym, ap, ◌∙◌, true, false, Option, none, some, List,
  [], ◌∷◌, ◌++◌, arith, ltb, ◌==◌, if◌then◌else◌, length, take, drop, get_elem?, replicate,
  length-append, take-append-drop, length-take, length-drop, Bool-cases, inl, inr, ◌⊎◌,
}
use mathlib.Core.List.{append-nil, append_assoc}
use dfdisk.RawCopy.World.{
  World, IoError, IoErrorKind, interrupted, storage_full, write_zero, other, WriteResult, accepted,
  write_failed, ReadsFrom, IsFaithful, IsPatient,
}
use dfdisk.Prelude.Optional.{◌>>=◌}
use dfdisk.RawCopy.Copier.{is_interrupted, no_more_data, Written, write_fully}

abbrev pub Ends {ℓ κ} : {A : Type ℓ} → (A → Type κ) → Option A → Type (ℓ ⊔ κ)
Ends P m = (a : _) × (m ≡ some a) × P a

pub Ends->>= {ℓ κ ι ν} :
    {A : Type ℓ} {B : Type κ} {Q : A → Type ι} {P : B → Type ν} {m : Option A} {f : A → Option B}
    → Ends Q m
    → ((a : A) → Q a → Ends P (f a))
    → Ends P (m >>= f)
Ends->>= (a, e, q) h = rw e (h a q)

pub Ends-map {ℓ ι ν} :
    {A : Type ℓ} {Q : A → Type ι} {P : A → Type ν} {m : Option A}
    → Ends Q m
    → ((a : A) → Q a → P a)
    → Ends P m
Ends-map (a, e, q) h = (a, e, h a q)

pub Ends-eq {ℓ ι} : {A : Type ℓ} {P : A → Type ι} {m n : Option A} → m ≡ n → Ends P n → Ends P m
Ends-eq e (a, h, p) = (a, e ∙ h, p)

pub ReadsFrom-append :
    (f : ℕ → ℕ) (offset : ℕ) (xs ys : List ℕ)
    → ReadsFrom f offset (xs ++ ys)
    → ReadsFrom f offset xs
ReadsFrom-append f offset [] ys h = tt
ReadsFrom-append f offset (x ∷ xs) ys h = (h.0, ReadsFrom-append f (offset + 1) xs ys h.1)

pub ReadsFrom-replicate : (n b offset : ℕ) → ReadsFrom (λ _. b) offset (replicate n b)
ReadsFrom-replicate zero b offset = tt
ReadsFrom-replicate (suc n) b offset = (refl, ReadsFrom-replicate n b (offset + 1))

pub ReadsFrom-get_elem? :
    (f : ℕ → ℕ) (offset i : ℕ) (xs : List ℕ)
    → ReadsFrom f offset xs
    → i < length xs
    → get_elem? xs i ≡ some (f (offset + i))
ReadsFrom-get_elem? f offset i [] h l = absurd (omega arith)
ReadsFrom-get_elem? f offset zero (x ∷ xs) h l = ground (arith, h.0)
ReadsFrom-get_elem? f offset (suc i) (x ∷ xs) h l =
    let same : offset + suc i ≡ offset + 1 + i = omega arith in
    rw same (ReadsFrom-get_elem? f (offset + 1) i xs h.1 (omega arith))

pub get_elem?-append :
    (xs ys : List ℕ) (i : ℕ)
    → get_elem? (xs ++ ys) i
      ≡ (if ltb i (length xs) then get_elem? xs i else get_elem? ys (i - length xs))
get_elem?-append [] ys i = ground arith
get_elem?-append (x ∷ xs) ys zero = ground arith
get_elem?-append (x ∷ xs) ys (suc i) = ground (arith, get_elem?-append xs ys i)

WriteResult-cases :
    (r : WriteResult) → ((n : ℕ) × (r ≡ accepted n)) ⊎ ((e : IoError) × (r ≡ write_failed e))
WriteResult-cases (accepted n) = inl (n, refl)
WriteResult-cases (write_failed e) = inr (e, refl)

is_interrupted-eq : (k : IoErrorKind) → is_interrupted k ≡ true → k ≡ interrupted
is_interrupted-eq interrupted h = refl
is_interrupted-eq storage_full h = absurd (cc)
is_interrupted-eq write_zero h = absurd (cc)
is_interrupted-eq other h = absurd (cc)

-- What `write_fully` took is a beginning of the data, all of it unless an error ended the writing.
abbrev pub TakenOf : {S : Type 0} → List ℕ → List ℕ → Written S → Type 0
TakenOf taken bytes r =
    (more : List ℕ) × (rest : List ℕ) × (r.taken ≡ taken ++ more)
    × (bytes ≡ more ++ rest)
    × (r.error ≡ none → length more ≡ length bytes)

module _ (w : World) (fuel : ℕ) (s : w.State) (taken : List ℕ) (b : ℕ) (bs : List ℕ) where
  write_fully-none_accepted :
      (n : ℕ)
      → (w.write s (b ∷ bs)).1 ≡ accepted n
      → n == 0 ≡ true
      → write_fully w (suc fuel) s taken (b ∷ bs)
        ≡ some (record { state = (w.write s (b ∷ bs)).0; taken = taken; error = some no_more_data })
  unfolding write_fully
  write_fully-none_accepted n e z = ground arith

  write_fully-some_accepted :
      (n : ℕ)
      → (w.write s (b ∷ bs)).1 ≡ accepted n
      → n == 0 ≡ false
      → write_fully w (suc fuel) s taken (b ∷ bs)
        ≡ write_fully w fuel (w.write s (b ∷ bs)).0 (taken ++ take n (b ∷ bs)) (drop n (b ∷ bs))
  unfolding write_fully
  write_fully-some_accepted n e z = ground arith

  write_fully-interrupted :
      (e : IoError)
      → (w.write s (b ∷ bs)).1 ≡ write_failed e
      → is_interrupted e.kind ≡ true
      → write_fully w (suc fuel) s taken (b ∷ bs)
        ≡ write_fully w fuel (w.write s (b ∷ bs)).0 taken (b ∷ bs)
  unfolding write_fully
  write_fully-interrupted e f i = ground arith

  write_fully-failed :
      (e : IoError)
      → (w.write s (b ∷ bs)).1 ≡ write_failed e
      → is_interrupted e.kind ≡ false
      → write_fully w (suc fuel) s taken (b ∷ bs)
        ≡ some (record { state = (w.write s (b ∷ bs)).0; taken = taken; error = some e })
  unfolding write_fully
  write_fully-failed e f i = ground arith

module _ (w : World) {content : ℕ → ℕ} (faithful : IsFaithful w content) {patience : w.State → ℕ}
    (patient : IsPatient w patience) where
  pub write_fully-Ends :
      (fuel : ℕ) (s : w.State) (taken bytes : List ℕ)
      → length bytes + patience s < fuel
      → Ends
          (λ r. TakenOf taken bytes r × (patience r.state ≤ patience s))
          (write_fully w fuel s taken bytes)
  unfolding write_fully
  write_fully-Ends zero s taken bytes h = absurd (omega arith)
  write_fully-Ends (suc n) s taken [] h =
      (_, refl, (([], [], sym (append-nil taken), refl, λ _. refl), omega arith))
  write_fully-Ends (suc fuel) s taken (b ∷ bs) h =
      let (s', r) = w.write s (b ∷ bs) in
      let calm = patient.writes s (b ∷ bs) in
      let none_taken : (e : IoError)
          → TakenOf taken (b ∷ bs) (record { state = s'; taken = taken; error = some e }) =
        λ e. ([], b ∷ bs, sym (append-nil taken), refl, λ q. absurd (cc)) in
      elim (WriteResult-cases (w.write s (b ∷ bs)).1) [
        | inl (n, e) ↦
            let short = faithful.write_short s (b ∷ bs) n e in
            elim (Bool-cases (n == 0)) [
              | inl z ↦ (
                _,
                write_fully-none_accepted w fuel s taken b bs n e z,
                (none_taken no_more_data, calm),
              )
              | inr z ↦
                  let more = take n (b ∷ bs) in
                  let later = drop n (b ∷ bs) in
                  let on =
                    write_fully-Ends fuel s' (taken ++ more) later
                      (ground (arith, length-drop n (b ∷ bs))) in
                  Ends-eq (write_fully-some_accepted w fuel s taken b bs n e z) (
                    Ends-map on (λ r ((rest, left, t, d, full), p). (
                      (
                        more ++ rest,
                        left,
                        t ∙ append_assoc taken more rest,
                        sym (take-append-drop n (b ∷ bs))
                            ∙ ap (λ l. more ++ l) d
                            ∙ sym (append_assoc more rest left),
                        λ q. omega (
                          arith,
                          full q,
                          length-append more rest,
                          length-take n (b ∷ bs),
                          length-drop n (b ∷ bs),
                        ),
                      ),
                      omega (arith, p, calm),
                    )))
            ]
        | inr (e, failed) ↦ elim (Bool-cases (is_interrupted e.kind)) [
          | inl i ↦
              let less = patient.interrupts s (b ∷ bs) e failed (is_interrupted-eq e.kind i) in
              let on = write_fully-Ends fuel s' taken (b ∷ bs) (omega (arith, less)) in
              Ends-eq (write_fully-interrupted w fuel s taken b bs e failed i)
                (Ends-map on (λ r (t, p). (t, omega (arith, p, calm))))
          | inr i ↦ (_, write_fully-failed w fuel s taken b bs e failed i, (none_taken e, calm))
        ]
      ]
