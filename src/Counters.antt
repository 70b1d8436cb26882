-- ===== src/Counters.antt =====
-- src/counters.c: an array of unsigned counters that grows.
-- `data` is the part below `size`; what an allocation leaves above it is never read before it is
-- set to 0. The allocation loop runs on fuel: each round adds at least 32, so `new_size` rounds
-- are enough.
use memccache.Base.{
  ℕ, zero, suc, ◌+◌, ◌-◌, ◌≤◌, List, [], ◌++◌, take, length, length-append, length-take,
  length-replicate, get_or, get_or-append, get_or-take, get_or-beyond, replicate, ltb, ltb→lt,
  ltb→ge, Bool-cases, inl, inr, if◌then◌else◌, ◌≡◌, refl, arith,
}

pub record Counters : Type 0 where
  pub data' : List ℕ
  pub size : ℕ
  pub allocated : ℕ

unfoldable pub grow : ℕ → ℕ → ℕ → ℕ
grow zero new_size allocated = allocated
grow (suc f) new_size allocated =
    let more = grow f new_size (allocated + (32 + allocated)) in
    if ltb allocated new_size then more else allocated

unfoldable pub counters_resize : Counters → ℕ → Counters
counters_resize c new_size =
    if ltb c.size new_size
    then record {
      data' = c.data' ++ replicate (new_size - c.size) 0;
      size = new_size;
      allocated = grow new_size new_size c.allocated;
    }
    else record { data' = take new_size c.data'; size = new_size; allocated = c.allocated }

unfoldable pub counters_init : ℕ → Counters
counters_init initial_size =
    counters_resize (record { data' = []; size = 0; allocated = 0 }) initial_size

-- The data has the logical size, and the allocation holds it.
abbrev pub IsValid : Counters → Type 0
IsValid c = (length c.data' ≡ c.size) × (c.size ≤ c.allocated)

-- The loop ends with room for the new size.
grow_enough :
    (f new_size allocated : ℕ) → new_size ≤ allocated + f → new_size ≤ grow f new_size allocated
unfolding grow
grow_enough zero new_size allocated h = omega arith
grow_enough (suc f) new_size allocated h =
    let ih = grow_enough f new_size (allocated + (32 + allocated)) (omega arith) in ground arith

-- If the data of the counters has their size and the allocation holds it, then after
-- counters_resize the same is true, and the size is the new one.
pub counters_resize-IsValid :
    (c : Counters) (new_size : ℕ)
    → IsValid c
    → IsValid (counters_resize c new_size) × ((counters_resize c new_size).size ≡ new_size)
unfolding counters_resize
counters_resize-IsValid c new_size (h, a) = elim (Bool-cases (ltb c.size new_size)) [
  | inl e ↦
      let less = ltb→lt c.size new_size e in
      let zeros : List ℕ = replicate (new_size - c.size) 0 in
      let filled : length zeros ≡ new_size - c.size = length-replicate (new_size - c.size) 0 in
      let total = length-append c.data' zeros in
      rw (counters_resize, e)
        ((omega arith, grow_enough new_size new_size c.allocated (omega arith)), refl)
  | inr e ↦
      let more = ltb→ge c.size new_size e in
      let kept = length-take new_size c.data' in
      rw (counters_resize, e) ((omega arith, omega arith), refl)
]

pub get_or-replicate : (n i d : ℕ) → get_or (replicate n d) i d ≡ d
get_or-replicate zero i d = refl
get_or-replicate (suc n) zero d = refl
get_or-replicate (suc n) (suc i) d = get_or-replicate n i d

-- If the data of the counters has their size, then after counters_resize each counter below the
-- new size reads as before, where one that is new reads 0, and none is left at or above the new
-- size.
pub get_or-counters_resize :
    (c : Counters) (new_size i : ℕ)
    → length c.data' ≡ c.size
    → get_or (counters_resize c new_size).data' i 0
      ≡ (if ltb i new_size then get_or c.data' i 0 else 0)
unfolding counters_resize
get_or-counters_resize c new_size i h = elim (Bool-cases (ltb c.size new_size)) [
  | inl e ↦
      let less = ltb→lt c.size new_size e in
      let split = get_or-append c.data' (replicate (new_size - c.size) 0) i 0 in
      let zeros = get_or-replicate (new_size - c.size) (i - length c.data') 0 in
      let beyond = get_or-beyond c.data' i 0 in rw (counters_resize, e) (ground arith)
  | inr e ↦
      let more = ltb→ge c.size new_size e in
      rw (counters_resize, e) (get_or-take new_size c.data' i 0)
]
