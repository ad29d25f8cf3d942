-- ===== src/Agent/Plan/Selected.antt =====
-- The greedy selection of lanes: no conflicts, the bound, and nothing lost.
use malts.Base.{ℕ, ◌≤◌, ◌<◌, String, Bool, false, ◌||◌, ◌≡◌, arith}
use malts.Base.{List, [], ◌∷◌, ◌++◌, All, All-append, length, length-append, leb}
use malts.Base.{Bool-cases, inl, inr, text_leb}
use mathlib.Core.List.{Perm, perm_middle, append_assoc, append-nil, map-append}
use mathlib.Core.List.Perm
use malts.Agent.Lanes.{Lane}
use malts.Agent.Plan.{conflicts, select_lanes, lane_ids, insert_lane, sort_lanes}

-- No lane conflicts with one before it.
abbrev pub IsConflictFree :
    (String × String → String × String → Bool) → List Lane → List Lane → Type 0
IsConflictFree conflict before [] = Unit
IsConflictFree conflict before (l ∷ ls) =
    (conflicts conflict l before ≡ false) × IsConflictFree conflict (before ++ l ∷ []) ls

module _ (conflict : String × String → String × String → Bool) where
  free-snoc :
      (before ls : List Lane) (l : Lane)
      → IsConflictFree conflict before ls
      → conflicts conflict l (before ++ ls) ≡ false
      → IsConflictFree conflict before (ls ++ l ∷ [])
  free-snoc before [] l h k = (rw append-nil at k, tt)
  free-snoc before (m ∷ ls) l h k = (h.0, free-snoc (before ++ m ∷ []) ls l h.1 (rw append_assoc k))

  module _ (desired : ℕ) where
    pub select-free :
        (ls selected : List Lane) (deferred : List String)
        → IsConflictFree conflict [] selected
        → IsConflictFree conflict [] (select_lanes conflict desired ls selected deferred).0
    unfolding select_lanes
    select-free [] selected deferred h = h
    select-free (l ∷ ls) selected deferred h =
        elim (Bool-cases (leb desired (length selected) || conflicts conflict l selected)) [
          | inl e ↦ rw (e, select_lanes) (select-free ls selected (deferred ++ l.lane_id ∷ []) h)
          | inr e ↦
              rw (e, select_lanes)
                (select-free ls (selected ++ l ∷ []) deferred
                  (free-snoc [] selected l h (ground arith)))
        ]

    pub select-length :
        (ls selected : List Lane) (deferred : List String)
        → length selected ≤ desired
        → length (select_lanes conflict desired ls selected deferred).0 ≤ desired
    unfolding select_lanes
    select-length [] selected deferred h = h
    select-length (l ∷ ls) selected deferred h =
        elim (Bool-cases (leb desired (length selected) || conflicts conflict l selected)) [
          | inl e ↦ rw (e, select_lanes) (select-length ls selected (deferred ++ l.lane_id ∷ []) h)
          | inr e ↦
              rw (e, select_lanes)
                (select-length ls (selected ++ l ∷ []) deferred
                  (ground (arith, length-append selected (l ∷ []))))
        ]

    -- Each lane is either selected or deferred.
    pub select-perm :
        (ls selected : List Lane) (deferred : List String)
        → let r = select_lanes conflict desired ls selected deferred in
          Perm (lane_ids r.0 ++ r.1) ((lane_ids selected ++ deferred) ++ lane_ids ls)
    unfolding select_lanes
    select-perm [] selected deferred = rw append-nil (Perm.refl _)
    select-perm (l ∷ ls) selected deferred =
        elim (Bool-cases (leb desired (length selected) || conflicts conflict l selected)) [
          | inl e ↦
              rw (e, select_lanes)
                (Perm.trans (select-perm ls selected (deferred ++ l.lane_id ∷ []))
                  (simp append_assoc (Perm.refl _)))
          | inr e ↦
              rw (e, select_lanes)
                (Perm.trans (select-perm ls (selected ++ l ∷ []) deferred) (
                  simp (map-append, append_assoc)
                    (Perm.append_left (lane_ids selected)
                      (Perm.symm (perm_middle deferred (lane_ids ls))))))
        ]

  pub select-All :
      (P : Lane → Type 0) (desired : ℕ) (ls selected : List Lane) (deferred : List String)
      → All P ls
      → All P selected
      → All P (select_lanes conflict desired ls selected deferred).0
  unfolding select_lanes
  select-All P desired [] selected deferred h k = k
  select-All P desired (l ∷ ls) selected deferred h k =
      elim (Bool-cases (leb desired (length selected) || conflicts conflict l selected)) [
        | inl e ↦
            rw (e, select_lanes)
              (select-All P desired ls selected (deferred ++ l.lane_id ∷ []) h.1 k)
        | inr e ↦
            rw (e, select_lanes)
              (select-All P desired ls (selected ++ l ∷ []) deferred h.1
                (All-append P selected (l ∷ []) k (h.0, tt)))
      ]

  -- With room for a lane and a lane at hand, the selection is not empty.
  pub select-nonempty :
      (desired : ℕ) (l : Lane) (ls : List Lane)
      → 0 < desired
      → 0 < length (select_lanes conflict desired (l ∷ ls) [] []).0
  unfolding select_lanes conflicts
  select-nonempty desired l ls h = rw (no_room desired h) (grows ls (l ∷ []) [])
    where
      no_room : (n : ℕ) → 0 < n → leb n 0 ≡ false
      no_room n h = ground arith

      grows :
          (ls selected : List Lane) (deferred : List String)
          → length selected ≤ length (select_lanes conflict desired ls selected deferred).0
      grows [] selected deferred = omega arith
      grows (l ∷ ls) selected deferred =
          elim (Bool-cases (leb desired (length selected) || conflicts conflict l selected)) [
            | inl e ↦ rw (e, select_lanes) (grows ls selected (deferred ++ l.lane_id ∷ []))
            | inr e ↦
                rw (e, select_lanes)
                  (omega (
                    arith,
                    grows ls (selected ++ l ∷ []) deferred,
                    length-append selected (l ∷ []),
                  ))
          ]

ids-insert :
    (l : Lane) (ms : List Lane) → Perm (lane_ids (insert_lane l ms)) (l.lane_id ∷ lane_ids ms)
unfolding insert_lane
ids-insert l [] = Perm.refl _
ids-insert l (m ∷ ms) = elim (Bool-cases (text_leb l.lane_id m.lane_id)) [
  | inl e ↦ rw e (Perm.refl _)
  | inr e ↦ rw e (Perm.trans (Perm.cons m.lane_id (ids-insert l ms)) (Perm.swap _ _ _))
]

pub ids-sort : (ls : List Lane) → Perm (lane_ids (sort_lanes ls)) (lane_ids ls)
unfolding sort_lanes
ids-sort [] = Perm.refl _
ids-sort (l ∷ ls) = Perm.trans (ids-insert l (sort_lanes ls)) (Perm.cons l.lane_id (ids-sort ls))

All-insert_lane :
    (P : Lane → Type 0) (l : Lane) (ms : List Lane) → P l → All P ms → All P (insert_lane l ms)
unfolding insert_lane
All-insert_lane P l [] h k = (h, tt)
All-insert_lane P l (m ∷ ms) h k = elim (Bool-cases (text_leb l.lane_id m.lane_id)) [
  | inl e ↦ rw e (h, k)
  | inr e ↦ rw e (k.0, All-insert_lane P l ms h k.1)
]

pub All-sort_lanes : (P : Lane → Type 0) (ls : List Lane) → All P ls → All P (sort_lanes ls)
unfolding sort_lanes
All-sort_lanes P [] h = tt
All-sort_lanes P (l ∷ ls) h = All-insert_lane P l (sort_lanes ls) h.0 (All-sort_lanes P ls h.1)
