-- ===== src/Time/Frontier.antt =====
-- `Frontier` of core-rs/src/time.rs: the vector of timestamps as a list, oldest first.
use pgress.Prelude.{
  ◌≡◌, refl, ◌∙◌, inl, inr, arith, Bool, true, false, ◌&&◌, ◌||◌, List, [], ◌∷◌, ◌++◌, foldl,
  if◌then◌else◌, Bool-cases, All,
}
use pgress.Time.{ProductTime}
use pgress.Time
use pgress.Time.Order.{dominates_trans, dominates-meet}

abbrev pub Frontier : Type 0
Frontier = List ProductTime

-- `self.0.iter().any(|f| f.dominates(t))`.
unfoldable pub dominates : Frontier → ProductTime → Bool
dominates [] t = false
dominates (f ∷ fs) t = Time.dominates f t || dominates fs t

-- `retain(|existing| !t.dominates(existing))`.
unfoldable pub retain_above : ProductTime → Frontier → Frontier
retain_above t [] = []
retain_above t (f ∷ fs) = if Time.dominates t f then retain_above t fs else f ∷ retain_above t fs

unfoldable pub advance : Frontier → ProductTime → Frontier
unfolding dominates retain_above
advance fs t = if dominates fs t then fs else retain_above t fs ++ t ∷ []

unfoldable pub join : Frontier → Frontier → Frontier
unfolding advance
join fs gs = foldl advance fs gs

-- The inner loop of `meet`, for one element of the first frontier.
unfoldable pub meet_row : ProductTime → Frontier → Frontier → Frontier
unfolding advance
meet_row a result [] = result
meet_row a result (b ∷ gs) = meet_row a (advance result (Time.meet a b)) gs

unfoldable pub meet_rows : Frontier → Frontier → Frontier → Frontier
unfolding meet_row
meet_rows result [] gs = result
meet_rows result (a ∷ fs) gs = meet_rows (meet_row a result gs) fs gs

unfoldable pub meet : Frontier → Frontier → Frontier
unfolding meet_rows
meet fs gs = meet_rows [] fs gs

-- Neither of two timestamps dominates the other.
abbrev pub Apart : ProductTime → ProductTime → Type 0
Apart t u = (Time.dominates t u ≡ false) × (Time.dominates u t ≡ false)

-- No element dominates another.
abbrev pub IsAntichain : Frontier → Type 0
IsAntichain [] = Unit {0}
IsAntichain (f ∷ fs) = All (Apart f) fs × IsAntichain fs

dominates-append :
    (fs gs : Frontier) (t : ProductTime)
    → dominates (fs ++ gs) t ≡ (dominates fs t || dominates gs t)
unfolding dominates
dominates-append [] gs t = refl
dominates-append (f ∷ fs) gs t = ground (arith, dominates-append fs gs t)

-- What is dropped for `t` lies below `t`.
dominates-retain_above :
    (t u : ProductTime) (fs : Frontier)
    → (dominates (retain_above t fs) u || Time.dominates t u)
      ≡ (dominates fs u || Time.dominates t u)
unfolding dominates retain_above
dominates-retain_above t u [] = refl
dominates-retain_above t u (f ∷ fs) =
    ground (arith, dominates-retain_above t u fs, dominates_trans t f u)

dominates_below :
    (fs : Frontier) (t u : ProductTime)
    → dominates fs t ≡ true
    → Time.dominates t u ≡ true
    → dominates fs u ≡ true
unfolding dominates
dominates_below [] t u h p = ground arith
dominates_below (f ∷ fs) t u h p = ground (arith, dominates_trans f t u, dominates_below fs t u)

-- What lies behind the advanced frontier is what lay behind it before and what `t` dominates.
pub dominates-advance :
    (fs : Frontier) (t u : ProductTime)
    → dominates (advance fs t) u ≡ (dominates fs u || Time.dominates t u)
unfolding advance dominates
dominates-advance fs t u = elim (Bool-cases (dominates fs t)) [
  | inl old ↦ rw old (ground (arith, dominates_below fs t u old))
  | inr new ↦ rw new (
      dominates-append (retain_above t fs) (t ∷ []) u
      ∙ ground (arith, dominates-retain_above t u fs))
]

Apart-retain_above :
    (f t : ProductTime) (fs : Frontier) → All (Apart f) fs → All (Apart f) (retain_above t fs)
unfolding retain_above
Apart-retain_above f t [] h = tt
Apart-retain_above f t (g ∷ fs) h = ground (arith, Apart-retain_above f t fs h.1)

Apart-push :
    (f t : ProductTime) (fs : Frontier)
    → All (Apart f) fs
    → Apart f t
    → All (Apart f) (fs ++ t ∷ [])
Apart-push f t [] h p = (p, tt)
Apart-push f t (g ∷ fs) h p = (h.0, Apart-push f t fs h.1 p)

IsAntichain-push :
    (t : ProductTime) (fs : Frontier)
    → dominates fs t ≡ false
    → IsAntichain fs
    → IsAntichain (retain_above t fs ++ t ∷ [])
unfolding dominates retain_above
IsAntichain-push t [] new h = (tt, tt)
IsAntichain-push t (f ∷ fs) new h = elim (Bool-cases (Time.dominates t f)) [
  | inl covered ↦ rw covered (IsAntichain-push t fs (ground arith) h.1)
  | inr stays ↦ rw stays (
    Apart-push f t (retain_above t fs) (Apart-retain_above f t fs h.0) (ground arith),
    IsAntichain-push t fs (ground arith) h.1,
  )
]

-- Advancing keeps a frontier an antichain: no element dominates another.
pub advance-IsAntichain :
    (fs : Frontier) (t : ProductTime) → IsAntichain fs → IsAntichain (advance fs t)
unfolding advance
advance-IsAntichain fs t h = elim (Bool-cases (dominates fs t)) [
  | inl old ↦ rw old h
  | inr new ↦ rw new (IsAntichain-push t fs new h)
]

-- Joining keeps a frontier an antichain.
pub join-IsAntichain : (fs gs : Frontier) → IsAntichain fs → IsAntichain (join fs gs)
unfolding join
join-IsAntichain fs [] h = h
join-IsAntichain fs (g ∷ gs) h = join-IsAntichain (advance fs g) gs (advance-IsAntichain fs g h)

-- Behind the join of two frontiers lies what is behind either of them.
pub dominates-join_lem :
    (fs gs : Frontier) (u : ProductTime)
    → dominates (join fs gs) u ≡ (dominates fs u || dominates gs u)
unfolding join dominates
dominates-join_lem fs [] u = ground arith
dominates-join_lem fs (g ∷ gs) u =
    dominates-join_lem (advance fs g) gs u ∙ ground (arith, dominates-advance fs g u)

meet_row-IsAntichain :
    (a : ProductTime) (r gs : Frontier) → IsAntichain r → IsAntichain (meet_row a r gs)
unfolding meet_row
meet_row-IsAntichain a r [] h = h
meet_row-IsAntichain a r (b ∷ gs) h =
    meet_row-IsAntichain a (advance r (Time.meet a b)) gs (advance-IsAntichain r _ h)

meet_rows-IsAntichain : (r fs gs : Frontier) → IsAntichain r → IsAntichain (meet_rows r fs gs)
unfolding meet_rows
meet_rows-IsAntichain r [] gs h = h
meet_rows-IsAntichain r (a ∷ fs) gs h =
    meet_rows-IsAntichain (meet_row a r gs) fs gs (meet_row-IsAntichain a r gs h)

-- The meet of any two frontiers is an antichain.
pub meet-IsAntichain : (fs gs : Frontier) → IsAntichain (meet fs gs)
unfolding meet
meet-IsAntichain fs gs = meet_rows-IsAntichain [] fs gs tt

meet_bool :
    (a b u : ProductTime)
    → Time.dominates (Time.meet a b) u ≡ (Time.dominates a u && Time.dominates b u)
meet_bool a b u = ground (arith, dominates-meet a b u)

dominates-meet_row :
    (a : ProductTime) (r gs : Frontier) (u : ProductTime)
    → dominates (meet_row a r gs) u ≡ (dominates r u || (Time.dominates a u && dominates gs u))
unfolding meet_row dominates
dominates-meet_row a r [] u = ground arith
dominates-meet_row a r (b ∷ gs) u =
    dominates-meet_row a (advance r (Time.meet a b)) gs u
    ∙ ground (arith, dominates-advance r (Time.meet a b) u, meet_bool a b u)

dominates-meet_rows :
    (r fs gs : Frontier) (u : ProductTime)
    → dominates (meet_rows r fs gs) u ≡ (dominates r u || (dominates fs u && dominates gs u))
unfolding meet_rows dominates
dominates-meet_rows r [] gs u = ground arith
dominates-meet_rows r (a ∷ fs) gs u =
    dominates-meet_rows (meet_row a r gs) fs gs u ∙ ground (arith, dominates-meet_row a r gs u)

-- Behind the meet of two frontiers lies what is behind both of them.
pub dominates-meet_lem :
    (fs gs : Frontier) (u : ProductTime)
    → dominates (meet fs gs) u ≡ (dominates fs u && dominates gs u)
unfolding meet dominates
dominates-meet_lem fs gs u = dominates-meet_rows [] fs gs u ∙ ground arith
