-- ===== src/WorkEstimate/Least.antt =====
-- Which entry `getWorkEstimate` (src/work_estimate.cpp) takes where a path has several.
use catalyst_build_executor.Base.{
  ◌≡◌, refl, sym, ap, ◌∙◌, inl, inr, true, false, Bytes, List, [], ◌∷◌, Option, none, some, arith,
  if◌then◌else◌, Bool-cases, bytes_eq, bytes_eq_iff,
}
use catalyst_build_executor.WorkEstimate.{
  EstimateEntry, bytes_less, entry_less, insert_entry, sort, lower_bound, value_of, number_of,
  get_work_estimate,
}

-- The lesser of two values, and the least value among the entries of a path.
abbrev pub lesser : Bytes → Option Bytes → Bytes
lesser v none = v
lesser v (some w) = if bytes_less w v then w else v

abbrev pub least_value : Bytes → List EstimateEntry → Option Bytes
least_value path [] = none
least_value path (e ∷ es) =
    if bytes_eq e.path path
    then some (lesser e.value (least_value path es))
    else least_value path es

pub bytes_less_irrefl : (s : Bytes) → bytes_less s s ≡ false
unfolding bytes_less
bytes_less_irrefl [] = refl
bytes_less_irrefl (a ∷ s) = ground (arith, bytes_less_irrefl s)

bytes_less_asym : (s t : Bytes) → bytes_less s t ≡ true → bytes_less t s ≡ false
unfolding bytes_less
bytes_less_asym s [] h = cc
bytes_less_asym [] (b ∷ t) h = refl
bytes_less_asym (a ∷ s) (b ∷ t) h = ground (arith, bytes_less_asym s t)

pub bytes_less_trans :
    (s t u : Bytes) → bytes_less s t ≡ true → bytes_less t u ≡ true → bytes_less s u ≡ true
unfolding bytes_less
bytes_less_trans s [] u h h' = cc
bytes_less_trans s (b ∷ t) [] h h' = cc
bytes_less_trans [] (b ∷ t) (c ∷ u) h h' = refl
bytes_less_trans (a ∷ s) (b ∷ t) (c ∷ u) h h' = ground (arith, bytes_less_trans s t u)

pub bytes_less_conn : (s t : Bytes) → bytes_less s t ≡ false → bytes_less t s ≡ false → s ≡ t
unfolding bytes_less
bytes_less_conn [] [] h h' = refl
bytes_less_conn (a ∷ s) [] h h' = cc
bytes_less_conn [] (b ∷ t) h h' = cc
bytes_less_conn (a ∷ s) (b ∷ t) h h' = ground (arith, bytes_less_conn s t)

-- Where two paths stand to each other.
data Place (p path : Bytes) : Type 0 where
  below : bytes_less p path ≡ true → bytes_eq p path ≡ false → Place p path
  same : p ≡ path → bytes_less p path ≡ false → bytes_eq p path ≡ true → Place p path
  above :
      bytes_less path p ≡ true → bytes_less p path ≡ false → bytes_eq p path ≡ false → Place p path

place : (p path : Bytes) → Place p path
place p path = elim (Bool-cases (bytes_less p path)) [
  | inl less ↦
      below less (differ (λ e. ground (arith, less, bytes_less_irrefl p, ap (bytes_less p) e)))
  | inr not_less ↦ elim (Bool-cases (bytes_less path p)) [
    | inl more ↦
        above more not_less
          (differ (λ e. ground (arith, more, bytes_less_irrefl p, ap (λ q. bytes_less q p) e)))
    | inr not_more ↦
        let e = bytes_less_conn p path not_less not_more in
        same e not_less ((bytes_eq_iff p path).1 e)
  ]
]
  where
    differ : (¬ (p ≡ path)) → bytes_eq p path ≡ false
    differ n = elim (Bool-cases (bytes_eq p path)) [
      | inl e ↦ absurd (n ((bytes_eq_iff p path).0 e))
      | inr e ↦ e
    ]

module _ (path : Bytes) where
  abbrev found : List EstimateEntry → Option Bytes
  found es = value_of path (lower_bound path es)

  abbrev joined : EstimateEntry → Option Bytes → Option Bytes
  joined e rest = if bytes_eq e.path path then some (lesser e.value rest) else rest

  found-below :
      (e : EstimateEntry) (es : List EstimateEntry)
      → bytes_less e.path path ≡ true
      → found (e ∷ es) ≡ found es
  unfolding lower_bound
  found-below e es h = rw h refl

  found-not_below :
      (e : EstimateEntry) (es : List EstimateEntry)
      → bytes_less e.path path ≡ false
      → found (e ∷ es) ≡ (if bytes_eq e.path path then some e.value else none)
  unfolding lower_bound
  found-not_below e es h = rw h refl

  found-in_front :
      (e x : EstimateEntry) (es : List EstimateEntry)
      → entry_less x e ≡ false
      → found (e ∷ x ∷ es) ≡ joined e (found (x ∷ es))
  unfolding entry_less
  found-in_front e x es h = elim (place e.path path) [
    | below less differ ↦ found-below e (x ∷ es) less ∙ ground arith
    | same e' less same' ↦
        let here = found-not_below e (x ∷ es) less in
        let lt = ap (bytes_less x.path) e' in
        let eq = ap (bytes_eq x.path) e' in
        elim (place x.path path) [
          | below xl xd ↦ ground (arith, here, lt, eq)
          | same xe xl xs ↦ ground (arith, here, lt, eq, found-not_below x es xl)
          | above xm xl xd ↦ ground (arith, here, lt, eq, found-not_below x es xl)
        ]
    | above more less differ ↦
        let here = found-not_below e (x ∷ es) less in
        elim (place x.path path) [
          | below xl xd ↦ ground (arith, here, bytes_less_trans x.path path e.path xl more)
          | same xe xl xs ↦ ground (arith, here, ap (λ q. bytes_less q e.path) xe)
          | above xm xl xd ↦ ground (arith, here, found-not_below x es xl)
        ]
  ]

  found-behind :
      (e x : EstimateEntry) (es rest : List EstimateEntry)
      → entry_less x e ≡ true
      → found rest ≡ joined e (found es)
      → found (x ∷ rest) ≡ joined e (found (x ∷ es))
  unfolding entry_less
  found-behind e x es rest h ih = elim (place x.path path) [
    | below less differ ↦ found-below x rest less ∙ ih ∙ ap (joined e) (sym (found-below x es less))
    | same e' less same' ↦
        let before = found-not_below x rest less in
        let after = found-not_below x es less in
        let lt = ap (λ q. bytes_less q e.path) e' in
        elim (place e.path path) [
          | below el ed ↦ ground (arith, before, after)
          | same ee el es' ↦ ground (
            arith,
            before,
            after,
            ap (bytes_less x.path) ee,
            bytes_less_asym e.value x.value,
            bytes_less_asym x.value e.value,
          )
          | above em el ed ↦ ground (arith, before, after)
        ]
    | above more less differ ↦
        let before = found-not_below x rest less in
        let after = found-not_below x es less in
        elim (place e.path path) [
          | below el ed ↦ ground (arith, before, after)
          | same ee el es' ↦
              ground (arith, before, after, ap (bytes_less x.path) ee, ap (bytes_eq x.path) ee)
          | above em el ed ↦ ground (arith, before, after)
        ]
  ]

  found-insert_entry :
      (e : EstimateEntry) (es : List EstimateEntry)
      → found (insert_entry e es) ≡ joined e (found es)
  unfolding insert_entry lower_bound
  found-insert_entry e [] = elim (place e.path path) [
    | below el ed ↦ ground (arith, el, ed)
    | same ee el es' ↦ ground (arith, el, es')
    | above em el ed ↦ ground (arith, el, ed)
  ]
  found-insert_entry e (x ∷ es) = elim (Bool-cases (entry_less x e)) [
    | inl less ↦ rw less (found-behind e x es (insert_entry e es) less (found-insert_entry e es))
    | inr not_less ↦ rw not_less (found-in_front e x es not_less)
  ]

  found-sort : (es : List EstimateEntry) → found (sort es) ≡ least_value path es
  unfolding sort lower_bound
  found-sort [] = refl
  found-sort (e ∷ es) = found-insert_entry e (sort es) ∙ ap (joined e) (found-sort es)

-- Of the entries of a path, `getWorkEstimate` takes the one with the least text: it returns the number
-- that this text starts with, and 0 where there is no entry or the text starts with no number.
pub get_work_estimate-least_value :
    (es : List EstimateEntry) (path : Bytes)
    → get_work_estimate (sort es) path ≡ number_of (least_value path es)
unfolding get_work_estimate
get_work_estimate-least_value es path = ap number_of (found-sort path es)
