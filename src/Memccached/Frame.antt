-- ===== src/Memccached/Frame.antt =====
-- The blob format of memccached_set and memccached_get in src/memccached.c, without the server.
use memccache.Base.{
  ℕ, zero, suc, ◌^◌, ◌≤◌, ◌<◌, ◌≡◌, refl, sym, ap, ◌∙◌, [], ◌∷◌, ◌++◌, true, false, Option, none,
  some, arith, ltb, take, drop, length, All, length-append, length-take, take-append, drop-append,
  take-append-drop, append_assoc, Bytes, starts_with, starts_with_sound,
}
use memccache.Base.Endian.{htonl, ntohl, ntohl-htonl, length-htonl, IsByte, htonl-ntohl}
use memccache.Memccached.{Parts, magic, put_buffer, encode, get_buffer, ◌>>=◌, decode}

-- Every length fits the 32-bit field.
pub record IsSmall (p : Parts) : Type 0 where
  pub obj_fits : length p.obj < 2 ^ 32
  pub stderr_fits : length p.stderr < 2 ^ 32
  pub dia_fits : length p.dia < 2 ^ 32
  pub dep_fits : length p.dep < 2 ^ 32

get_buffer-put_buffer :
    (bs r : Bytes) → length bs < 2 ^ 32 → get_buffer (put_buffer bs ++ r) ≡ some (bs, r)
unfolding get_buffer put_buffer
get_buffer-put_buffer bs r h =
    let joined : (htonl (length bs) ++ bs) ++ r ≡ htonl (length bs) ++ (bs ++ r) =
      append_assoc (htonl (length bs)) bs r in
    let long : ltb (length (htonl (length bs) ++ (bs ++ r))) 4 ≡ false =
      ground (arith, length-append (htonl (length bs)) (bs ++ r), length-htonl (length bs)) in
    let behind : drop 4 (htonl (length bs) ++ (bs ++ r)) ≡ bs ++ r =
      rw (length-htonl (length bs)) at (drop-append (htonl (length bs)) (bs ++ r)) in
    let enough : ltb (length (bs ++ r)) (length bs) ≡ false = ground (arith, length-append bs r) in
    rw (
      joined,
      long,
      behind,
      ntohl-htonl (length bs) (bs ++ r) h,
      enough,
      take-append bs r,
      drop-append bs r,
    )

-- What memccached_get reads of what memccached_set wrote, whatever bytes follow.
pub decode-encode : (p : Parts) (r : Bytes) → IsSmall p → decode (encode p ++ r) ≡ some p
unfolding decode encode
decode-encode p r s =
    let b₁ = put_buffer p.obj in
    let b₂ = put_buffer p.stderr in
    let b₃ = put_buffer p.dia in
    let b₄ = put_buffer p.dep in
    let regroup : (b₁ ++ (b₂ ++ (b₃ ++ b₄))) ++ r ≡ b₁ ++ (b₂ ++ (b₃ ++ (b₄ ++ r))) =
      simp (append_assoc) in
    rw (
      regroup,
      get_buffer-put_buffer p.obj (b₂ ++ (b₃ ++ (b₄ ++ r))) s.obj_fits,
      get_buffer-put_buffer p.stderr (b₃ ++ (b₄ ++ r)) s.stderr_fits,
      get_buffer-put_buffer p.dia (b₄ ++ r) s.dia_fits,
      get_buffer-put_buffer p.dep r s.dep_fits,
    )

All-drop : (n : ℕ) (bs : Bytes) → All IsByte bs → All IsByte (drop n bs)
All-drop zero bs h = h
All-drop (suc n) [] h = tt
All-drop (suc n) (x ∷ bs) h = All-drop n bs h.1

-- A buffer that is read stands behind its length.
get_buffer_parts :
    (bs b r : Bytes)
    → get_buffer bs ≡ some (b, r)
    → (4 ≤ length bs)
      × (ntohl bs ≤ length (drop 4 bs))
      × (take (ntohl bs) (drop 4 bs) ≡ b)
      × (drop (ntohl bs) (drop 4 bs) ≡ r)
unfolding get_buffer
get_buffer_parts bs b r e = (ground arith, ground arith, ground arith, ground arith)

get_buffer_sound :
    (bs b r : Bytes)
    → All IsByte bs
    → get_buffer bs ≡ some (b, r)
    → (put_buffer b ++ r ≡ bs) × All IsByte r
unfolding put_buffer
get_buffer_sound bs b r h e =
    let (long, enough, eb, er) = get_buffer_parts bs b r e in
    let n = ntohl bs in
    let size : length b ≡ n = ap length (sym eb) ∙ (omega (arith, length-take n (drop 4 bs))) in
    let body : b ++ r ≡ drop 4 bs = rw (← eb, ← er) (take-append-drop n (drop 4 bs)) in
    (
      rw (append_assoc (htonl (length b)) b r, size, body) (htonl-ntohl bs h long),
      rw (← er) (All-drop n (drop 4 bs) (All-drop 4 bs h)),
    )

>>=-eq-some :
    {A B : Type 0} (m : Option A) (f : A → Option B) {b : B}
    → (m >>= f) ≡ some b
    → (a : A) × (m ≡ some a) × (f a ≡ some b)
>>=-eq-some none f h = absurd (ground arith)
>>=-eq-some (some a) f h = (a, refl, h)

some_inj : (p q : Parts) → some p ≡ some q → p ≡ q
some_inj p q h = cc

abbrev frames : Parts → Bytes
frames p = put_buffer p.obj ++ (put_buffer p.stderr ++ (put_buffer p.dia ++ put_buffer p.dep))

assemble :
    (q : Parts) (body r₁ r₂ r₃ r₄ : Bytes)
    → put_buffer q.obj ++ r₁ ≡ body
    → put_buffer q.stderr ++ r₂ ≡ r₁
    → put_buffer q.dia ++ r₃ ≡ r₂
    → put_buffer q.dep ++ r₄ ≡ r₃
    → body ≡ frames q ++ r₄
assemble q body r₁ r₂ r₃ r₄ e₁ e₂ e₃ e₄ = rw (← e₁, ← e₂, ← e₃, ← e₄) (simp append_assoc)

-- Whatever decodes is an encoding, with bytes behind it that are ignored.
pub decode_sound :
    (value : Bytes) (p : Parts)
    → All IsByte value
    → starts_with value magic ≡ true
    → decode value ≡ some p
    → (r : Bytes) × (value ≡ encode p ++ r)
unfolding decode encode
decode_sound value p h m e =
    let (body, split) = starts_with_sound value magic m in
    let start : drop 4 value ≡ body = ap (drop 4) split in
    let ((b₁, r₁), e₁, k₁) = >>=-eq-some (get_buffer (drop 4 value)) _ e in
    let ((b₂, r₂), e₂, k₂) = >>=-eq-some (get_buffer r₁) _ k₁ in
    let ((b₃, r₃), e₃, k₃) = >>=-eq-some (get_buffer r₂) _ k₂ in
    let ((b₄, r₄), e₄, k₄) = >>=-eq-some (get_buffer r₃) _ k₃ in
    let (q₁, h₁) = get_buffer_sound (drop 4 value) b₁ r₁ (All-drop 4 value h) e₁ in
    let (q₂, h₂) = get_buffer_sound r₁ b₂ r₂ h₁ e₂ in
    let (q₃, h₃) = get_buffer_sound r₂ b₃ r₃ h₂ e₃ in
    let (q₄, h₄) = get_buffer_sound r₃ b₄ r₄ h₃ e₄ in
    let q : Parts = record { obj = b₁; stderr = b₂; dia = b₃; dep = b₄ } in
    let same : q ≡ p = some_inj q p k₄ in
    let whole : body ≡ frames q ++ r₄ = assemble q body r₁ r₂ r₃ r₄ (q₁ ∙ start) q₂ q₃ q₄ in
    (r₄, split ∙ ap (λ t. magic ++ t) whole ∙ ap (λ t. encode t ++ r₄) same)
