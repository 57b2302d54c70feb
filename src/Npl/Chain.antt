-- ===== src/Npl/Chain.antt =====
-- Intrusive lists of nimble-rs/src/npl.rs: which nodes the `next` pointers lead through, and how
-- linking and unlinking change that. Events and callouts both stand in such lists.
use nimble_rs.Base.{
  ◌≡◌, ◌≢◌, refl, true, false, List, [], ◌∷◌, ◌++◌, arith, ◌==◌, if◌then◌else◌, has, IsDistinct,
  Bool-cases, inl, inr,
}
use nimble_rs.Npl.Store.{Ptr, null}

abbrev pub last : List Ptr → Ptr
last [] = null
last (x ∷ []) = x
last (x ∷ y ∷ ys) = last (y ∷ ys)

-- From `p` the `next` pointers lead through `xs` to null.
abbrev pub Chain : (Ptr → Ptr) → Ptr → List Ptr → Type 0
Chain n p [] = p ≡ null
Chain n p (x ∷ xs) = (p ≡ x) × (x ≢ null) × Chain n (n x) xs

-- `xs` less the node `ev`.
abbrev pub erase : Ptr → List Ptr → List Ptr
erase ev [] = []
erase ev (x ∷ xs) = if x == ev then xs else x ∷ erase ev xs

pub has-last : (x : Ptr) (xs : List Ptr) → has (last (x ∷ xs)) (x ∷ xs) ≡ true
has-last x [] = ground arith
has-last x (y ∷ ys) = ground (arith, has-last y ys)

pub has-append :
    (a ev : Ptr) (xs : List Ptr) → has a (xs ++ ev ∷ []) ≡ (if a == ev then true else has a xs)
has-append a ev [] = ground arith
has-append a ev (x ∷ xs) = ground (arith, has-append a ev xs)

pub last-append : (ev : Ptr) (xs : List Ptr) → last (xs ++ ev ∷ []) ≡ ev
last-append ev [] = refl
last-append ev (x ∷ []) = refl
last-append ev (x ∷ y ∷ ys) = last-append ev (y ∷ ys)

pub IsDistinct-append :
    (ev : Ptr) (xs : List Ptr) → IsDistinct xs → has ev xs ≡ false → IsDistinct (xs ++ ev ∷ [])
IsDistinct-append ev [] d out = (refl, tt)
IsDistinct-append ev (x ∷ xs) d out =
    (ground (arith, has-append x ev xs), IsDistinct-append ev xs d.1 (ground arith))

pub Chain-last :
    (n : Ptr → Ptr) (p x : Ptr) (xs : List Ptr) → Chain n p (x ∷ xs) → last (x ∷ xs) ≢ null
Chain-last n p x [] c = c.1
Chain-last n p x (y ∷ ys) c = Chain-last n (n x) y ys c.2

-- A chain survives any change that keeps the `next` pointers of its own events.
pub Chain-frame :
    (n n' : Ptr → Ptr) (p : Ptr) (xs : List Ptr)
    → Chain n p xs
    → ((q : Ptr) → has q xs ≡ true → n' q ≡ n q)
    → Chain n' p xs
Chain-frame n n' p [] c same = c
Chain-frame n n' p (x ∷ xs) c same =
    let e : n' x ≡ n x = ground (arith, same x) in
    let rest : Chain n' (n x) xs = Chain-frame n n' (n x) xs c.2 (λ q h. same q (ground arith)) in
    (c.0, c.1, rw e rest)

-- Linking `ev` behind the last event of a chain that is not empty.
pub Chain-append :
    (n n' : Ptr → Ptr) (p ev x : Ptr) (xs : List Ptr)
    → Chain n p (x ∷ xs)
    → IsDistinct (x ∷ xs)
    → ((q : Ptr) → has q (x ∷ xs) ≡ true → q ≢ last (x ∷ xs) → n' q ≡ n q)
    → n' (last (x ∷ xs)) ≡ ev
    → ev ≢ null
    → n' ev ≡ null
    → Chain n' p ((x ∷ xs) ++ ev ∷ [])
Chain-append n n' p ev x [] c d same at_last some_ev at_ev = (c.0, c.1, (at_last, some_ev, at_ev))
Chain-append n n' p ev x (y ∷ ys) c d same at_last some_ev at_ev =
    let apart : x ≢ last (y ∷ ys) = ground (arith, has-last y ys) in
    let e : n' x ≡ n x = same x (ground arith) apart in
    let rest : Chain n' (n x) ((y ∷ ys) ++ ev ∷ []) =
      Chain-append n n' (n x) ev y ys c.2 d.1 (λ q h. same q (ground arith)) at_last some_ev
        at_ev in
    (c.0, c.1, rw e rest)

-- The event before `ev` in `xs`, or `prev` if `ev` comes first.
abbrev pub before : Ptr → Ptr → List Ptr → Ptr
before ev prev [] = prev
before ev prev (x ∷ xs) = if x == ev then prev else before ev x xs

pub has-before : (ev x : Ptr) (xs : List Ptr) → has (before ev x xs) (x ∷ xs) ≡ true
has-before ev x [] = ground arith
has-before ev x (y ∷ ys) = ground (arith, has-before ev y ys)

pub has-erase : (p ev : Ptr) (xs : List Ptr) → has p xs ≡ false → has p (erase ev xs) ≡ false
has-erase p ev [] h = refl
has-erase p ev (x ∷ xs) h = ground (arith, has-erase p ev xs)

pub not-mem-erase : (ev : Ptr) (xs : List Ptr) → IsDistinct xs → has ev (erase ev xs) ≡ false
not-mem-erase ev [] d = refl
not-mem-erase ev (x ∷ xs) d = ground (arith, not-mem-erase ev xs d.1)

pub IsDistinct-erase : (ev : Ptr) (xs : List Ptr) → IsDistinct xs → IsDistinct (erase ev xs)
IsDistinct-erase ev [] d = tt
IsDistinct-erase ev (x ∷ xs) d = elim (Bool-cases (x == ev)) [
  | inl e ↦ rw e d.1
  | inr e ↦ rw e (has-erase x ev xs d.0, IsDistinct-erase ev xs d.1)
]

pub last-erase :
    (ev x : Ptr) (xs : List Ptr)
    → IsDistinct (x ∷ xs)
    → has ev xs ≡ true
    → last (x ∷ erase ev xs) ≡ (if last (x ∷ xs) == ev then before ev x xs else last (x ∷ xs))
last-erase ev x [] d h = cc
last-erase ev x (y ∷ []) d h = ground arith
last-erase ev x (y ∷ z ∷ zs) d h = elim (Bool-cases (y == ev)) [
  | inl e ↦ let out : ev ≢ last (z ∷ zs) = ground (arith, has-last z zs) in ground arith
  | inr e ↦ rw e (last-erase ev y (z ∷ zs) d.1 (ground arith))
]

pub mem-ne-null :
    (n : Ptr → Ptr) (p q : Ptr) (xs : List Ptr) → Chain n p xs → has q xs ≡ true → q ≢ null
mem-ne-null n p q [] c h = cc
mem-ne-null n p q (x ∷ xs) c h = elim (Bool-cases (q == x)) [
  | inl e ↦ ground arith
  | inr e ↦ mem-ne-null n (n x) q xs c.2 (ground arith)
]

pub before-ne :
    (ev x : Ptr) (xs : List Ptr)
    → IsDistinct (x ∷ xs)
    → has ev xs ≡ true
    → x ≢ ev
    → before ev x xs ≢ ev
before-ne ev x [] d h ne = cc
before-ne ev x (y ∷ ys) d h ne = elim (Bool-cases (y == ev)) [
  | inl e ↦ rw e ne
  | inr e ↦ rw e (before-ne ev y ys d.1 (ground arith) (ground arith))
]

-- Unlinking an event that is not the first.
pub Chain-erase :
    (n n' : Ptr → Ptr) (p ev x : Ptr) (xs : List Ptr)
    → Chain n p (x ∷ xs)
    → IsDistinct (x ∷ xs)
    → has ev xs ≡ true
    → ((q : Ptr) → q ≢ before ev x xs → q ≢ ev → n' q ≡ n q)
    → n' (before ev x xs) ≡ n ev
    → Chain n' p (x ∷ erase ev xs)
Chain-erase n n' p ev x [] c d h same at_before = cc
Chain-erase n n' p ev x (y ∷ ys) c d h same at_before = elim (Bool-cases (y == ev)) [
  | inl e ↦
      let after : n' x ≡ n y = ground arith in
      let rest : Chain n' (n y) ys =
        Chain-frame n n' (n y) ys c.2.2 (λ q i. ground (arith, same q)) in
      rw e (c.0, c.1, rw after rest)
  | inr e ↦
      let apart : x ≢ before ev y ys = ground (arith, has-before ev y ys) in
      let kept : n' x ≡ n x = ground (arith, same x) in
      let rest : Chain n' (n x) (y ∷ erase ev ys) =
        Chain-erase n n' (n x) ev y ys c.2 d.1 (ground arith) (λ q u v. ground (arith, same q))
          (ground arith) in
      rw e (c.0, c.1, rw kept rest)
]
