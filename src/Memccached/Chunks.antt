-- ===== src/Memccached/Chunks.antt =====
-- The chunks of a big value and the fetch loop of memccached_big_get in src/memccached.c.
use memccache.Base.{
  take, ◌%◌, ◌^◌, ℕ, suc, ◌≡◌, refl, sym, ap, ap₂, ◌∙◌, List, [], ◌∷◌, ◌++◌, Bool, true, false,
  ◌||◌, Option, none, some, arith, ◌==◌, ==_refl, if◌then◌else◌, set, get_or, length, replicate,
  Bool-cases, inl, inr, Bytes, bytes_eq, bytes_eq_refl, bytes_eq_sound, bytes_eq_symm,
}
use memccache.Memccached.{Fetch, chunk, failed, find_key, Slots, place, fetch_loop, gather}

abbrev pub Entries : Type 0
Entries = List (Bytes × ℕ)

unfoldable pub has_key : Bytes → Entries → Bool
has_key k [] = false
has_key k ((j, n) ∷ es) = bytes_eq k j || has_key k es

-- No key stands twice in the index.
abbrev pub IsDistinct : Entries → Type 0
IsDistinct [] = Unit
IsDistinct ((k, n) ∷ es) = (has_key k es ≡ false) × IsDistinct es

abbrev pub delivered : Bytes → List Fetch → Bool
delivered k [] = false
delivered k (chunk j v ∷ rs) = bytes_eq k j || delivered k rs
delivered k (failed ∷ rs) = delivered k rs

-- No chunk of the index is left out.
abbrev pub AllOf : List Fetch → Entries → Type 0
AllOf rs [] = Unit
AllOf rs ((k, n) ∷ es) = (delivered k rs ≡ true) × AllOf rs es

take-length : (s : Bytes) → take (length s) s ≡ s
take-length [] = refl
take-length (c ∷ s) = ap (λ r. c ∷ r) (take-length s)

module _ (vals : Bytes → Option Bytes) where
  -- The server has every chunk of the index, of the length that the index gives.
  abbrev pub Has : Entries → Type 0
  Has [] = Unit
  Has ((k, n) ∷ es) = ((v : Bytes) × (vals k ≡ some v) × (length v ≡ n)) × Has es

  -- What is delivered was asked for, and each chunk comes once.
  abbrev pub Answers : Entries → List Fetch → Type 0
  Answers es [] = Unit
  Answers es (failed ∷ rs) = ⊥
  Answers es (chunk k v ∷ rs) =
      (has_key k es ≡ true) × (vals k ≡ some v) × (delivered k rs ≡ false) × Answers es rs

  -- The slots once the keys that `got` selects have arrived.
  abbrev pub fill : (Bytes → Bool) → Entries → Slots
  fill got [] = []
  fill got ((k, n) ∷ es) = (if got k then vals k else none) ∷ fill got es

  abbrev pub with_key : (Bytes → Bool) → Bytes → Bytes → Bool
  with_key got k j = got j || bytes_eq j k

  fill_skip :
      (got : Bytes → Bool) (k : Bytes) (es : Entries)
      → has_key k es ≡ false
      → fill (with_key got k) es ≡ fill got es
  unfolding has_key
  fill_skip got k [] h = refl
  fill_skip got k ((j, n) ∷ es) h = ground (arith, bytes_eq_symm j k, fill_skip got k es)

  -- A chunk that is new goes into its slot.
  place_new :
      (got : Bytes → Bool) (k v : Bytes) (es : Entries)
      → IsDistinct es
      → Has es
      → has_key k es ≡ true
      → got k ≡ false
      → vals k ≡ some v
      → (i : ℕ) × (find_key k es ≡ some i)
        × (get_or (fill got es) i none ≡ none)
        × ((get_or es i ([], 0)).1 ≡ length v)
        × (set (fill got es) i (some v) ≡ fill (with_key got k) es)
  unfolding has_key find_key
  place_new got k v [] d s h g e = absurd (ground arith)
  place_new got k v ((j, n) ∷ es) (out, d) ((w, ew, len), s) h g e =
      elim (Bool-cases (bytes_eq k j)) [
        | inl same ↦
            let q = bytes_eq_sound k j same in
            let fresh : got j ≡ false = ap got (sym q) ∙ g in
            let absent : has_key k es ≡ false = ap (λ t. has_key t es) q ∙ out in
            let same' : bytes_eq j k ≡ true = bytes_eq_symm j k ∙ same in
            let value : vals j ≡ some v = ap vals (sym q) ∙ e in
            let slot : some v ≡ (if got j || bytes_eq j k then vals j else none) =
              rw (fresh, same') (sym value) in
            (
              0,
              rw (same, find_key),
              rw fresh,
              ground arith,
              ap₂ ◌∷◌ slot (sym (fill_skip got k es absent)),
            )
        | inr other ↦
            let (i, f, empty, size, put) = place_new got k v es d s (ground arith) g e in
            let other' : bytes_eq j k ≡ false = bytes_eq_symm j k ∙ other in
            let slot : (if got j then vals j else none)
                ≡ (if got j || bytes_eq j k then vals j else none) =
              rw other' (ground arith) in
            (suc i, rw (other, find_key, f), empty, size, ap₂ ◌∷◌ slot put)
      ]

  place-fill :
      (got : Bytes → Bool) (k v : Bytes) (es : Entries)
      → IsDistinct es
      → Has es
      → has_key k es ≡ true
      → got k ≡ false
      → vals k ≡ some v
      → place es (fill got es) k v ≡ some (fill (with_key got k) es)
  unfolding place
  place-fill got k v es d s h g e =
      let (i, f, empty, size, put) = place_new got k v es d s h g e in
      let n = (get_or es i ([], 0)).1 in
      let fits : length v % 2 ^ 32 == n % 2 ^ 32 ≡ true = rw size (==_refl (length v % 2 ^ 32)) in
      let all : take n v ≡ v = rw size (take-length v) in
      rw (f, place, empty, place, fits, all, put)

  -- What is still to come is new.
  IsNew : (Bytes → Bool) → List Fetch → Type 0
  IsNew got rs = (k : Bytes) → delivered k rs ≡ true → got k ≡ false

  abbrev with_all : (Bytes → Bool) → List Fetch → Bytes → Bool
  with_all got [] = got
  with_all got (chunk k v ∷ rs) = with_all (with_key got k) rs
  with_all got (failed ∷ rs) = with_all got rs

  fetch_loop-fill :
      (got : Bytes → Bool) (es : Entries) (rs : List Fetch)
      → IsDistinct es
      → Has es
      → Answers es rs
      → IsNew got rs
      → fetch_loop es (fill got es) rs ≡ some (fill (with_all got rs) es)
  unfolding fetch_loop IsNew
  fetch_loop-fill got es [] d s a new = refl
  fetch_loop-fill got es (failed ∷ rs) d s a new = absurd a
  fetch_loop-fill got es (chunk k v ∷ rs) d s (asked, value, once, a) new =
      let fresh : got k ≡ false = new k (rw (bytes_eq_refl k)) in
      rw (place-fill got k v es d s asked fresh value, fetch_loop)
        (fetch_loop-fill (with_key got k) es rs d s a later)
    where
      later : (j : Bytes) → delivered j rs ≡ true → (got j || bytes_eq j k) ≡ false
      later j h = elim (Bool-cases (bytes_eq j k)) [
        | inl same ↦
            let q = ap (λ t. delivered t rs) (bytes_eq_sound j k same) in absurd (ground arith)
        | inr other ↦ let n : got j ≡ false = new j (ground arith) in rw (n, other)
      ]

  -- The bytes of the whole value.
  abbrev pub joined : Entries → Bytes
  joined [] = []
  joined ((k, n) ∷ es) = elim (vals k) [ none ↦ [] | some v ↦ v ] ++ joined es

  with_all_keeps :
      (got : Bytes → Bool) (rs : List Fetch) (k : Bytes)
      → (got k || delivered k rs) ≡ true
      → with_all got rs k ≡ true
  with_all_keeps got [] k h = ground arith
  with_all_keeps got (failed ∷ rs) k h = with_all_keeps got rs k h
  with_all_keeps got (chunk j v ∷ rs) k h = with_all_keeps (with_key got j) rs k (ground arith)

  gather-fill :
      (got : Bytes → Bool) (es : Entries) (rs : List Fetch)
      → Has es
      → AllOf rs es
      → gather (fill (with_all got rs) es) ≡ some (joined es)
  unfolding gather
  gather-fill got [] rs s a = refl
  gather-fill got ((k, n) ∷ es) rs ((v, e, len), s) (here, a) =
      let arrived : with_all got rs k ≡ true = with_all_keeps got rs k (ground arith) in
      rw (arrived, e, gather, gather-fill got es rs s a)

  replicate-fill : (es : Entries) → replicate (length es) none ≡ fill (λ k. false) es
  replicate-fill [] = refl
  replicate-fill ((k, n) ∷ es) = ap (◌∷◌ none) (replicate-fill es)

  -- If no key stands twice in the index, the server has every chunk in the length that the
  -- index gives, and each chunk of the index is delivered exactly once and nothing else is,
  -- then, whatever the order of delivery, the fetch loop succeeds and its slots make up the
  -- chunks in the order of the index.
  pub fetch_loop-gather :
      (es : Entries) (rs : List Fetch)
      → IsDistinct es
      → Has es
      → Answers es rs
      → AllOf rs es
      → (slots : Slots) × (fetch_loop es (replicate (length es) none) rs ≡ some slots)
        × (gather slots ≡ some (joined es))
  unfolding IsNew
  fetch_loop-gather es rs d s a all = (
    fill (with_all (λ k. false) rs) es,
    rw (replicate-fill es) (fetch_loop-fill (λ k. false) es rs d s a (λ k h. refl)),
    gather-fill (λ k. false) es rs s all,
  )
