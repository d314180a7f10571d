-- ===== src/Editing/Lists.antt =====
-- What an edit of the dashboard does to an acceptable list of entries.
use npvtunnel_creator_server.Base.{
  ◌≡◌, Bool, false, not, List, [], ◌∷◌, ◌++◌, some, Bytes, Text, str_eq, keep, any, arith,
  Option-cases, Bool-cases, inl, inr,
}
use npvtunnel_creator_server.Configs.{JsonShape, ConfigEntry}
use npvtunnel_creator_server.Editing.{change_first, without, has_id}
use npvtunnel_creator_server.Editing.Accepted.{Passes, Unseen, Acceptable}

module _ (change : ConfigEntry → ConfigEntry) (id : Text)
    (same : (e : ConfigEntry) → (change e).config_id ≡ e.config_id) where
  change_first-Unseen :
      (j : Text) (list out : List ConfigEntry)
      → change_first change id list ≡ some out
      → Unseen j list
      → Unseen j out
  unfolding change_first
  change_first-Unseen j [] out h u = cc
  change_first-Unseen j (e ∷ list) out h u = elim (Bool-cases (str_eq e.config_id id)) [
    | inl own ↦
        let shape : out ≡ change e ∷ list = cc (rw own at h) in rw shape (rw (same e) u.0, u.1)
    | inr other ↦ elim (Option-cases (change_first change id list)) [
      | inl nowhere ↦ absurd (cc (rw (other, nowhere) at h))
      | inr (rest, r) ↦
          let shape : out ≡ e ∷ rest = cc (rw (other, r) at h) in
          rw shape (u.0, change_first-Unseen j list rest r u.1)
    ]
  ]

  pub change_first-Acceptable :
      (json_shape : Bytes → JsonShape)
      → ((e : ConfigEntry) → Passes json_shape e → Passes json_shape (change e))
      → (list out : List ConfigEntry) → change_first change id list ≡ some out
      → Acceptable json_shape list
      → Acceptable json_shape out
  unfolding change_first
  change_first-Acceptable json_shape passes [] out h a = absurd (cc h)
  change_first-Acceptable json_shape passes (e ∷ list) out h a =
      elim (Bool-cases (str_eq e.config_id id)) [
        | inl own ↦
            let shape : out ≡ change e ∷ list = cc (rw own at h) in
            rw shape (passes e a.0, rw (same e) a.1, a.2)
        | inr other ↦ elim (Option-cases (change_first change id list)) [
          | inl nowhere ↦ absurd (cc (rw (other, nowhere) at h))
          | inr (rest, r) ↦
              let shape : out ≡ e ∷ rest = cc (rw (other, r) at h) in
              rw shape (
                a.0,
                change_first-Unseen e.config_id list rest r a.1,
                change_first-Acceptable json_shape passes list rest r a.2,
              )
        ]
      ]

module _ (json_shape : Bytes → JsonShape) where
  keep-Unseen :
      (p : ConfigEntry → Bool) (j : Text) (list : List ConfigEntry)
      → Unseen j list
      → Unseen j (keep p list)
  keep-Unseen p j [] u = tt
  keep-Unseen p j (e ∷ list) u = elim (Bool-cases (p e)) [
    | inl kept ↦ rw kept (u.0, keep-Unseen p j list u.1)
    | inr dropped ↦ rw dropped (keep-Unseen p j list u.1)
  ]

  keep-Acceptable :
      (p : ConfigEntry → Bool) (list : List ConfigEntry)
      → Acceptable json_shape list
      → Acceptable json_shape (keep p list)
  keep-Acceptable p [] a = tt
  keep-Acceptable p (e ∷ list) a = elim (Bool-cases (p e)) [
    | inl kept ↦ rw kept (a.0, keep-Unseen p e.config_id list a.1, keep-Acceptable p list a.2)
    | inr dropped ↦ rw dropped (keep-Acceptable p list a.2)
  ]

  pub without-Acceptable :
      (id : Text) (list out : List ConfigEntry)
      → without id list ≡ some out
      → Acceptable json_shape list
      → Acceptable json_shape out
  without-Acceptable id list out h a = elim (Bool-cases (any (has_id id) list)) [
    | inl there ↦
        let shape : out ≡ keep (λ e. not (has_id id e)) list = cc (rw there at h) in
        rw shape (keep-Acceptable (λ e. not (has_id id e)) list a)
    | inr nowhere ↦ absurd (cc (rw nowhere at h))
  ]

  snoc-Unseen :
      (j : Text) (list : List ConfigEntry) (e : ConfigEntry)
      → Unseen j list
      → str_eq j e.config_id ≡ false
      → Unseen j (list ++ e ∷ [])
  snoc-Unseen j [] e u h = (h, tt)
  snoc-Unseen j (e' ∷ list) e u h = (u.0, snoc-Unseen j list e u.1 h)

  pub snoc-Acceptable :
      (list : List ConfigEntry) (e : ConfigEntry)
      → Acceptable json_shape list
      → Passes json_shape e
      → any (has_id e.config_id) list ≡ false
      → Acceptable json_shape (list ++ e ∷ [])
  snoc-Acceptable [] e a p h = (p, tt, tt)
  snoc-Acceptable (e' ∷ list) e a p h = (
    a.0,
    snoc-Unseen e'.config_id list e a.1 (ground arith),
    snoc-Acceptable list e a.2 p (ground arith),
  )
