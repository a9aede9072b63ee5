-- ===== src/Unicode/Range/Room.antt =====
-- libunicode.c and libunicode.h: the room of a range, and what is left when it cannot be made.
use go_quickjs.Base.{
  ℕ, ◌+◌, ◌*◌, ◌/◌, ◌≤◌, ◌<◌, ◌≡◌, ◌⊎◌, inl, inr, refl, arith, List, [], ◌∷◌, ◌++◌, length, ltb,
  true, false, Bool-cases, length-append,
}
use Prim.Native.Nat.{max}
use go_quickjs.Unicode.Range.{Reply, CharRange, Changed, cr_realloc, cr_add_point, cr_add_interval}

-- The points in use fit the room.
abbrev pub Fits {ℓ} : {H : Type ℓ} → CharRange H → Type 0
Fits cr = length cr.points ≤ cr.size

-- The request was refused and nothing but the memory changed, or it holds `points`, which fit.
pub record Holds {ℓ} {H : Type ℓ} (cr : CharRange H) (points : List ℕ) (r : Changed H)
    : Type ℓ where
  pub outcome :
      ((r.failed ≡ true) × (r.cr.points ≡ cr.points) × (r.cr.size ≡ cr.size))
      ⊎ ((r.failed ≡ false) × (r.cr.points ≡ points) × Fits r.cr)
  pub fits : Fits cr → Fits r.cr

-- `cr_realloc` makes room for `size` points, or fails and keeps the room; it keeps the points.
pub cr_realloc_exact {ℓ} :
    {H : Type ℓ}
    → (cr : CharRange H) (size : ℕ)
    → ((cr_realloc cr size).cr.points ≡ cr.points)
      × (cr.size ≤ (cr_realloc cr size).cr.size)
      × (((cr_realloc cr size).failed ≡ true) × ((cr_realloc cr size).cr.size ≡ cr.size)
          ⊎ (((cr_realloc cr size).failed ≡ false) × (size ≤ (cr_realloc cr size).cr.size)))
unfolding cr_realloc
cr_realloc_exact cr size = elim (Bool-cases (ltb cr.size size)) [
  | inr f ↦ rw f (refl, omega arith, inr (refl, ground arith))
  | inl t ↦
      rw t
        (elim (Bool-cases
          (cr.realloc_func cr.mem_opaque (max size (cr.size * 3 / 2) * 4)).granted) [
            | inl g ↦ rw g (refl, ground arith, inr (refl, omega arith))
            | inr g ↦ rw g (refl, omega arith, inl (refl, refl))
          ])
]

-- `cr_add_point` puts the point at the end, within the room, or fails and leaves the range as
-- it was; a range that fits its room still does.
pub cr_add_point_exact {ℓ} :
    {H : Type ℓ} → (cr : CharRange H) (v : ℕ) → Holds cr (cr.points ++ (v ∷ [])) (cr_add_point cr v)
unfolding cr_add_point
cr_add_point_exact cr v = elim (Bool-cases (ltb (length cr.points) cr.size)) [
  | inl t ↦ rw t (record {
    outcome = inr (refl, refl, ground (arith, length-append cr.points (v ∷ [])));
    fits = λ h. ground (arith, length-append cr.points (v ∷ []));
  })
  | inr f ↦
      let (same, grows, done) = cr_realloc_exact cr (length cr.points + 1) in
      rw f (elim done [
        | inl (bad, size) ↦
            rw bad (record { outcome = inl (refl, same, size); fits = λ h. rw (same, size) h })
        | inr (good, room) ↦
            let fit : length (cr.points ++ (v ∷ []))
                ≤ (cr_realloc cr (length cr.points + 1)).cr.size =
              omega (arith, room, length-append cr.points (v ∷ [])) in
            rw (good, same) (record { outcome = inr (refl, refl, fit); fits = λ h. fit })
      ])
]

-- `cr_add_interval` puts both points at the end, within the room, or fails and leaves the range
-- as it was; a range that fits its room still does.
pub cr_add_interval_exact {ℓ} :
    {H : Type ℓ}
    → (cr : CharRange H) (c1 c2 : ℕ)
    → Holds cr (cr.points ++ (c1 ∷ c2 ∷ [])) (cr_add_interval cr c1 c2)
unfolding cr_add_interval
cr_add_interval_exact cr c1 c2 =
    let two = length-append cr.points (c1 ∷ c2 ∷ []) in
    elim (Bool-cases (ltb cr.size (length cr.points + 2))) [
      | inr f ↦ rw f (record {
        outcome = inr (refl, refl, ground (arith, two));
        fits = λ h. ground (arith, two);
      })
      | inl t ↦
          let (same, grows, done) = cr_realloc_exact cr (length cr.points + 2) in
          rw t (elim done [
            | inl (bad, size) ↦
                rw bad (record { outcome = inl (refl, same, size); fits = λ h. rw (same, size) h })
            | inr (good, room) ↦
                let fit : length (cr.points ++ (c1 ∷ c2 ∷ []))
                    ≤ (cr_realloc cr (length cr.points + 2)).cr.size =
                  omega (arith, room, two) in
                rw (good, same) (record { outcome = inr (refl, refl, fit); fits = λ h. fit })
          ])
    ]

-- In some state of its memory the allocator does not grant some request.
abbrev pub Refuses {ℓ} : {H : Type ℓ} → (H → ℕ → Reply H) → Type ℓ
Refuses {H} func = (m : H) × (bytes : ℕ) × ((func m bytes).granted ≡ false)

-- The one request of `cr_realloc` is made when there is less room than `size`.
pub cr_realloc-asked {ℓ} :
    {H : Type ℓ}
    → (cr : CharRange H) (size : ℕ) → (cr_realloc cr size).failed ≡ true
    → (cr.size < size)
      × ((cr.realloc_func cr.mem_opaque (max size (cr.size * 3 / 2) * 4)).granted ≡ false)
unfolding cr_realloc
cr_realloc-asked cr size bad = ground arith

pub cr_realloc-func {ℓ} :
    {H : Type ℓ}
    → (cr : CharRange H) (size : ℕ) → (cr_realloc cr size).cr.realloc_func ≡ cr.realloc_func
unfolding cr_realloc
cr_realloc-func cr size = ground arith

pub cr_add_point-Refuses {ℓ} :
    {H : Type ℓ}
    → (cr : CharRange H) (v : ℕ) → (cr_add_point cr v).failed ≡ true
    → Refuses cr.realloc_func
unfolding cr_add_point
cr_add_point-Refuses cr v bad =
    let size = length cr.points + 1 in
    let asked : (cr_realloc cr size).failed ≡ true = ground arith in
    (cr.mem_opaque, max size (cr.size * 3 / 2) * 4, (cr_realloc-asked cr size asked).1)

pub cr_add_point-func {ℓ} :
    {H : Type ℓ}
    → (cr : CharRange H) (v : ℕ) → (cr_add_point cr v).cr.realloc_func ≡ cr.realloc_func
unfolding cr_add_point
cr_add_point-func cr v = ground (arith, cr_realloc-func cr (length cr.points + 1))
