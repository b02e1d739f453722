-- ===== src/Connectivity/Counted.antt =====
-- connectivity.py: every configured sensor is counted on one bus.
use geopilot_hvac.Prelude.{
  ◌≡◌, refl, ap, ◌∙◌, arith, ℕ, suc, ◌+◌, ◌≤◌, Bool, true, false, not, Bool-cases, Option-cases,
  inl, inr, Option, none, some, List, [], ◌∷◌, ◌++◌, map, ℤ, ◌-ℤ◌, Text, ◌==◌, Dict, lookup, insert,
  length, length-append, ltb_ℤ, pos, ◌*◌,
}
use geopilot_hvac.Prelude.Sort.{keep, sort, insert_sorted, leb_text}
use geopilot_hvac.Historian.{is_member}
use geopilot_hvac.Connectivity.{
  ConfiguredSensor, SensorPresence, SourcePresence, Facts, is_unconfigured, state_of, judge,
  unexpected, presence, add_member, members_of, healthy_count, summary_of, by_source, least_age,
  is_healthy,
}

-- how many verdicts a dict of buses has
abbrev member_count : Dict (List SensorPresence) → ℕ
member_count [] = 0
member_count ((k, vs) ∷ d) = length vs + member_count d

member_count-insert_new :
    (k : Text) (vs : List SensorPresence) (d : Dict (List SensorPresence))
    → lookup k d ≡ none
    → member_count (insert k vs d) ≡ member_count d + length vs
unfolding lookup insert
member_count-insert_new k vs [] h = omega arith
member_count-insert_new k vs ((j, ws) ∷ d) h = elim (Bool-cases (j == k)) [
  | inl same ↦ let bad = rw (same, lookup) at h in cc bad
  | inr other ↦ rw other (omega (arith, member_count-insert_new k vs d (rw (other, lookup) at h)))
]

member_count-insert_old :
    (k : Text) (vs ws : List SensorPresence) (d : Dict (List SensorPresence))
    → lookup k d ≡ some ws
    → member_count (insert k vs d) + length ws ≡ member_count d + length vs
unfolding lookup insert
member_count-insert_old k vs ws [] h = cc h
member_count-insert_old k vs ws ((j, us) ∷ d) h = elim (Bool-cases (j == k)) [
  | inl same ↦
      let found = rw (same, lookup) at h in
      let e : us ≡ ws = cc found in rw same (omega (arith, ap length e))
  | inr other ↦
      rw other (omega (arith, member_count-insert_old k vs ws d (rw (other, lookup) at h)))
]

abbrev is_configured : SensorPresence → Bool
is_configured v = not (is_unconfigured v.presence)

member_count-add_member :
    (v : SensorPresence) (d : Dict (List SensorPresence))
    → member_count (add_member v d) ≡ suc (member_count d)
unfolding add_member
member_count-add_member v d = elim (Option-cases (lookup v.source_id d)) [
  | inl fresh ↦
      rw (fresh, add_member) (omega (arith, member_count-insert_new v.source_id (v ∷ []) d fresh))
  | inr (members, found) ↦
      rw (found, add_member)
        (omega (
          arith,
          member_count-insert_old v.source_id (members ++ v ∷ []) members d found,
          length-append members (v ∷ []),
        ))
]

member_count-members_of :
    (vs : List SensorPresence) (d : Dict (List SensorPresence))
    → member_count (members_of vs d) ≡ member_count d + length (keep is_configured vs)
unfolding members_of keep
member_count-members_of [] d = omega arith
member_count-members_of (v ∷ vs) d = elim (Bool-cases (is_unconfigured v.presence)) [
  | inl gone ↦ rw gone (member_count-members_of vs d)
  | inr kept ↦
      rw kept
        (omega (arith, member_count-members_of vs (add_member v d), member_count-add_member v d))
]

module _ (le : Text × List SensorPresence → Text × List SensorPresence → Bool) where
  member_count-insert_sorted :
      (x : Text × List SensorPresence) (d : Dict (List SensorPresence))
      → member_count (insert_sorted le x d) ≡ length x.1 + member_count d
  unfolding insert_sorted
  member_count-insert_sorted x [] = omega arith
  member_count-insert_sorted x (y ∷ d) = elim (Bool-cases (le x y)) [
    | inl e ↦ rw e refl
    | inr e ↦ rw e (omega (arith, member_count-insert_sorted x d))
  ]

  member_count-sort : (d : Dict (List SensorPresence)) → member_count (sort le d) ≡ member_count d
  unfolding sort
  member_count-sort [] = refl
  member_count-sort (x ∷ d) =
      omega (arith, member_count-insert_sorted x (sort le d), member_count-sort d)

-- what the buses of a summary have in all
abbrev pub total_of : List SourcePresence → ℕ
total_of [] = 0
total_of (s ∷ ss) = s.total + total_of ss

total_of-map : (d : Dict (List SensorPresence)) → total_of (map summary_of d) ≡ member_count d
unfolding summary_of
total_of-map [] = refl
total_of-map ((k, vs) ∷ d) = omega (arith, total_of-map d)

state_of-configured :
    (since : ℤ) (cadence : Option ℕ) → is_unconfigured (state_of since cadence) ≡ false
unfolding state_of is_unconfigured
state_of-configured since none = elim (Bool-cases (ltb_ℤ since least_age)) [
  | inl e ↦ rw e refl
  | inr e ↦ rw e refl
]
state_of-configured since (some cadence) = elim (Bool-cases (ltb_ℤ since least_age)) [
  | inl e ↦ rw e refl
  | inr e ↦ elim (Bool-cases (ltb_ℤ since (pos (cadence * 10)))) [
    | inr e2 ↦ rw (e, e2) refl
    | inl e2 ↦ elim (Bool-cases (ltb_ℤ since (pos (cadence * 3)))) [
      | inl e3 ↦ rw (e, e2, e3) refl
      | inr e3 ↦ rw (e, e2, e3) refl
    ]
  ]
]

judge-configured :
    (s : ConfiguredSensor) (facts : Option Facts) (now : ℤ)
    → is_configured (judge s facts now) ≡ true
unfolding judge is_unconfigured
judge-configured s none now = refl
judge-configured s (some facts) now =
    rw (state_of-configured (now -ℤ facts.last_seen) facts.cadence) refl

judged_kept :
    (facts : Dict Facts) (roster : List ConfiguredSensor) (now : ℤ)
    → length (keep is_configured (map (λ s. judge s (lookup s.sensor_id facts) now) roster))
      ≡ length roster
unfolding keep
judged_kept facts [] now = refl
judged_kept facts (s ∷ roster) now =
    rw (judge-configured s (lookup s.sensor_id facts) now) (ap suc (judged_kept facts roster now))

unexpected_dropped :
    (now : ℤ) (rows : Dict Facts) → length (keep is_configured (map (unexpected now) rows)) ≡ 0
unfolding keep unexpected is_unconfigured
unexpected_dropped now [] = refl
unexpected_dropped now ((id, facts) ∷ rows) = unexpected_dropped now rows

keep-append :
    {A : Type 0} (test : A → Bool) (xs ys : List A)
    → length (keep test (xs ++ ys)) ≡ length (keep test xs) + length (keep test ys)
unfolding keep
keep-append test [] ys = omega arith
keep-append test (x ∷ xs) ys = elim (Bool-cases (test x)) [
  | inl e ↦ rw e (omega (arith, keep-append test xs ys))
  | inr e ↦ rw e (keep-append test xs ys)
]

-- On each bus, at most all sensors are healthy.
abbrev pub AreBounded : List SourcePresence → Type 0
AreBounded [] = Unit
AreBounded (s ∷ ss) = (s.healthy ≤ s.total) × AreBounded ss

healthy_count-bound : (vs : List SensorPresence) → healthy_count vs ≤ length vs
unfolding healthy_count
healthy_count-bound [] = omega arith
healthy_count-bound (v ∷ vs) = elim (Bool-cases (is_healthy v.presence)) [
  | inl e ↦ rw e (omega (arith, healthy_count-bound vs))
  | inr e ↦ rw e (omega (arith, healthy_count-bound vs))
]

summary_of-AreBounded : (d : Dict (List SensorPresence)) → AreBounded (map summary_of d)
unfolding summary_of
summary_of-AreBounded [] = tt
summary_of-AreBounded ((k, vs) ∷ d) = (healthy_count-bound vs, summary_of-AreBounded d)

-- Whatever is recorded and whenever it is asked, the summary by bus of what presence finds counts
-- every configured sensor once, and none that is not configured: the totals of the buses add up to
-- the length of the roster; and no bus has more healthy sensors than sensors.
pub by_source_counted :
    (facts : Dict Facts) (roster : List ConfiguredSensor) (now : ℤ)
    → (total_of (by_source (presence facts roster now)) ≡ length roster)
      × AreBounded (by_source (presence facts roster now))
unfolding by_source presence
by_source_counted facts roster now =
    let judged = map (λ (s : ConfiguredSensor). judge s (lookup s.sensor_id facts) now) roster in
    let others = map (unexpected now) (
      keep (λ row. not (is_member row.0 (map (λ (s : ConfiguredSensor). s.sensor_id) roster)))
        (sort (λ a b. leb_text a.0 b.0) facts)) in
    let le = λ (a b : Text × List SensorPresence). leb_text a.0 b.0 in
    (
      total_of-map (sort le (members_of (judged ++ others) []))
          ∙ member_count-sort le (members_of (judged ++ others) [])
          ∙ member_count-members_of (judged ++ others) []
          ∙ omega (
            arith,
            keep-append is_configured judged others,
            judged_kept facts roster now,
            unexpected_dropped now (
                keep
                  (λ row.
                    not (is_member row.0 (map (λ (s : ConfiguredSensor). s.sensor_id) roster)))
                  (sort (λ a b. leb_text a.0 b.0) facts)),
          ),
      summary_of-AreBounded (sort le (members_of (judged ++ others) [])),
    )
