-- ===== src/Cutils/Buffer/Put.antt =====
-- cutils.c: `dbuf_put`, one time and many times.
use go_quickjs.Base.{
  ℕ, ◌+◌, ◌*◌, ◌/◌, ◌≤◌, ◌≡◌, ◌⊎◌, inl, inr, refl, sym, ◌∙◌, arith, List, [], ◌∷◌, ◌++◌, length,
  ltb, if◌then◌else◌, true, false, Bool-cases, length-append,
}
use mathlib.Core.Bool.{true≢false}
use mathlib.Core.List.{append_assoc, append-nil}
use go_quickjs.Cutils.Buffer.{DynBuf, Written, dbuf_realloc, dbuf_put, put_all}

-- The bytes in use fit what is allocated.
abbrev pub Fits {ℓ} : {H : Type ℓ} → DynBuf H → Type 0
Fits s = length s.bytes ≤ s.allocated_size

-- The write was refused, which sets the error and keeps the bytes, or it holds `bytes`, which fit,
-- and the error is as before.
pub record Puts {ℓ} {H : Type ℓ} (s : DynBuf H) (bytes : List ℕ) (r : Written H) : Type ℓ where
  pub outcome :
      ((r.refused ≡ true) × (r.buf.error ≡ true) × (r.buf.bytes ≡ s.bytes))
      ⊎ ((r.refused ≡ false) × (r.buf.error ≡ s.error) × (r.buf.bytes ≡ bytes) × Fits r.buf)
  pub fits : Fits s → Fits r.buf

-- `dbuf_realloc` gives the wanted room and keeps the error, or fails with the error set, also when it
-- was set before; it keeps the bytes and never gives room back.
pub dbuf_realloc_exact {ℓ} :
    {H : Type ℓ}
    → (s : DynBuf H) (new_size : ℕ)
    → ((dbuf_realloc s new_size).buf.bytes ≡ s.bytes)
      × (s.allocated_size ≤ (dbuf_realloc s new_size).buf.allocated_size)
      × ((((dbuf_realloc s new_size).refused ≡ true) × ((dbuf_realloc s new_size).buf.error ≡ true))
          ⊎ (((dbuf_realloc s new_size).refused ≡ false)
              × ((dbuf_realloc s new_size).buf.error ≡ s.error)
              × (new_size ≤ (dbuf_realloc s new_size).buf.allocated_size)))
unfolding dbuf_realloc
dbuf_realloc_exact s new_size = elim (Bool-cases (ltb s.allocated_size new_size)) [
  | inr f ↦ rw f (refl, omega arith, inr (refl, refl, ground arith))
  | inl t ↦ elim (Bool-cases s.error) [
    | inl e ↦ rw (t, e) (refl, omega arith, inl (refl, refl))
    | inr e ↦
        let size = s.allocated_size * 3 / 2 in
        elim (Bool-cases
          (s.realloc_func s.opaque (if ltb new_size size then size else new_size)).given) [
            | inl g ↦ rw (t, e, g) (refl, ground arith, inr (refl, refl, ground arith))
            | inr g ↦ rw (t, e, g) (refl, omega arith, inl (refl, refl))
          ]
  ]
]

pub dbuf_put_exact {ℓ} :
    {H : Type ℓ} → (s : DynBuf H) (chunk : List ℕ) → Puts s (s.bytes ++ chunk) (dbuf_put s chunk)
unfolding dbuf_put
dbuf_put_exact s chunk =
    let end = length s.bytes + length chunk in
    let len = length-append s.bytes chunk in
    elim (Bool-cases (ltb s.allocated_size end)) [
      | inr f ↦ rw f (record {
        outcome = inr (refl, refl, refl, ground (arith, len));
        fits = λ h. ground (arith, len);
      })
      | inl t ↦
          let (same, grows, done) = dbuf_realloc_exact s end in
          rw t (elim done [
            | inl (bad, e) ↦ rw bad (record {
              outcome = inl (refl, e, same);
              fits = λ h. rw same (omega (arith, h, grows));
            })
            | inr (good, e, room) ↦
                let fit : length (s.bytes ++ chunk) ≤ (dbuf_realloc s end).buf.allocated_size =
                  omega (arith, room, len) in
                rw (good, same) (record { outcome = inr (refl, e, refl, fit); fits = λ h. fit })
          ])
    ]

-- All data of several writes, one after the other.
abbrev pub all_data : List (List ℕ) → List ℕ
all_data [] = []
all_data (chunk ∷ more) = chunk ++ all_data more

error_stays {ℓ} :
    {H : Type ℓ}
    → (s : DynBuf H) (more : List (List ℕ)) → s.error ≡ true
    → (put_all s more).error ≡ true
unfolding put_all
error_stays s [] e = e
error_stays s (chunk ∷ more) e =
    error_stays (dbuf_put s chunk).buf more (elim (dbuf_put_exact s chunk).outcome [
      | inl (bad, set, same) ↦ set
      | inr (good, kept, new, fit) ↦ kept ∙ e
    ])

-- A caller may look at the error only after the last write: when it is not set, none of the writes
-- was lost, and the buffer ends with the data of all of them in order, within what is allocated.
pub put_all_exact {ℓ} :
    {H : Type ℓ}
    → (s : DynBuf H) (more : List (List ℕ)) → Fits s
    → (put_all s more).error ≡ false
    → ((put_all s more).bytes ≡ s.bytes ++ all_data more) × Fits (put_all s more)
unfolding put_all
put_all_exact s [] h e = (sym (append-nil s.bytes), h)
put_all_exact s (chunk ∷ more) h e =
    let p = dbuf_put_exact s chunk in
    elim p.outcome [
      | inl (bad, set, same) ↦
          absurd (true≢false (sym (error_stays (dbuf_put s chunk).buf more set) ∙ e))
      | inr (good, kept, new, fit) ↦
          let (b, f) = put_all_exact (dbuf_put s chunk).buf more (p.fits h) e in
          (b ∙ (rw new (append_assoc s.bytes chunk (all_data more))), f)
    ]
