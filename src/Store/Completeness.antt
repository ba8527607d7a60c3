-- ===== src/Store/Completeness.antt =====
-- What a ceremony still lacks: registering a participant's commitments or secret share, against the
-- `checkIf…Complete` and the `missing…` methods.
use mathlib.Core.Path.{subst}
use shieldnet.Prelude.{
  ℕ, ◌≡◌, refl, sym, ap, ◌∙◌, List, [], ◌∷◌, some, Bool, true, false, not, ◌==◌, arith, keep, map,
  inl, inr, Bool-cases, Option-cases, ==_iff,
}
use shieldnet.Prelude.Assoc.{get, put, has, get-put, get-put_self}
use shieldnet.Data.Frost.{GroupId, ParticipantId, FrostPoint}
use shieldnet.Store.Defs.{KeyGenInfo, StoredGroup, World, Result, ok, err, ◌>>=◌}
use shieldnet.Store.Groups.{group_info, participants}
use shieldnet.Store.KeyGens.{
  key_gen_info, check_information_complete, register_commitments, register_secret_share,
  check_if_commitments_complete, missing_commitments, check_if_secret_shares_complete,
  missing_secret_shares,
}

-- The list without the participant, and whether a list has no element.
unfoldable pub without : ParticipantId → List ParticipantId → List ParticipantId
without j = keep (λ i. not (i == j))

unfoldable pub is_empty : List ParticipantId → Bool
is_empty [] = true
is_empty (i ∷ ids) = false

module _ {ℓ} {V : Type ℓ} where
  -- The participants without an entry.
  abbrev lacking : List (ParticipantId × V) → List ParticipantId → List ParticipantId
  lacking m = keep (λ id. not (has id m))

  lacking-put :
      (j : ParticipantId) (v : V) (m : List (ParticipantId × V)) (ids : List ParticipantId)
      → lacking (put j v m) ids ≡ without j (lacking m ids)
  unfolding without
  lacking-put j v m [] = refl
  lacking-put j v m (i ∷ ids) =
      ground (arith, get-put j i v m, ==_iff i j, ==_iff j i, lacking-put j v m ids)

  complete-lacking :
      (m : List (ParticipantId × V)) (ids : List ParticipantId)
      → check_information_complete ids m ≡ is_empty (lacking m ids)
  unfolding check_information_complete is_empty
  complete-lacking m [] = refl
  complete-lacking m (i ∷ ids) = ground (arith, complete-lacking m ids)

-- The group and its ceremony are stored.
record Known (g : GroupId) (w : World) : Type 0 where
  group : StoredGroup
  info : KeyGenInfo
  in_groups : get g w.store.group_info ≡ some group
  in_key_gens : get g w.store.key_gen_info ≡ some info

ids_of : StoredGroup → List ParticipantId
ids_of group = map (λ p. p.id) group.participants

value : Result (List ParticipantId) → List ParticipantId
value (ok ids) = ids
value (err e) = []

module _ (g : GroupId) where
  missing_commitments-Known :
      (ids : List ParticipantId) (w : World)
      → missing_commitments g w ≡ (ok ids, w)
      → (k : Known g w) × (lacking k.info.commitments (ids_of k.group) ≡ ids)
  unfolding missing_commitments participants group_info key_gen_info ids_of value ◌>>=◌
  missing_commitments-Known ids w h = elim (Option-cases (get g w.store.group_info)) [
    | inl e ↦ absurd (ground (arith, rw e at h))
    | inr (group, e) ↦ elim (Option-cases (get g w.store.key_gen_info)) [
      | inl f ↦ absurd (ground (arith, rw (e, f) at h))
      | inr (info, f) ↦ (
        record { group = group; info = info; in_groups = e; in_key_gens = f },
        ap (λ r. value r.0) (rw (e, f) at h),
      )
    ]
  ]

  missing_commitments-lacking :
      (w : World) (k : Known g w)
      → missing_commitments g w ≡ (ok (lacking k.info.commitments (ids_of k.group)), w)
  unfolding missing_commitments participants group_info key_gen_info ids_of ◌>>=◌
  missing_commitments-lacking w k = rw (k.in_groups, k.in_key_gens) refl

  missing_secret_shares-lacking :
      (w : World) (k : Known g w)
      → missing_secret_shares g w ≡ (ok (lacking k.info.secret_shares (ids_of k.group)), w)
  unfolding missing_secret_shares participants group_info key_gen_info ids_of ◌>>=◌
  missing_secret_shares-lacking w k = rw (k.in_groups, k.in_key_gens) refl

  check_if_commitments_complete-lacking :
      (w : World) (k : Known g w)
      → check_if_commitments_complete g w
        ≡ (ok (is_empty (lacking k.info.commitments (ids_of k.group))), w)
  unfolding check_if_commitments_complete participants group_info key_gen_info ids_of ◌>>=◌
  check_if_commitments_complete-lacking w k =
      rw (k.in_groups, k.in_key_gens)
        (ap (λ b. (ok b, w)) (complete-lacking k.info.commitments (ids_of k.group)))

  check_if_secret_shares_complete-lacking :
      (w : World) (k : Known g w)
      → check_if_secret_shares_complete g w
        ≡ (ok (is_empty (lacking k.info.secret_shares (ids_of k.group))), w)
  unfolding check_if_secret_shares_complete participants group_info key_gen_info ids_of ◌>>=◌
  check_if_secret_shares_complete-lacking w k =
      rw (k.in_groups, k.in_key_gens)
        (ap (λ b. (ok b, w)) (complete-lacking k.info.secret_shares (ids_of k.group)))

  -- The state with other information on the ceremony.
  abbrev with_info : KeyGenInfo → World → World
  with_info info w = record w {
    store = record w.store { key_gen_info = put g info w.store.key_gen_info };
  }

  abbrev with_info-Known : (info : KeyGenInfo) (w : World) → Known g w → Known g (with_info info w)
  with_info-Known info w k = record {
    group = k.group;
    info = info;
    in_groups = k.in_groups;
    in_key_gens = get-put_self g info w.store.key_gen_info;
  }

  register_commitments-with_info :
      (j : ParticipantId) (points : List FrostPoint) (w w' : World) (k : Known g w)
      → register_commitments g j points w ≡ (ok tt, w')
      → with_info (record k.info { commitments = put j points k.info.commitments }) w ≡ w'
  unfolding register_commitments key_gen_info ◌>>=◌
  register_commitments-with_info j points w w' k h = elim (Bool-cases (has j k.info.commitments)) [
    | inl e ↦ absurd (ground (arith, rw (k.in_key_gens, e) at h))
    | inr e ↦ ap (λ r. r.1) (rw (k.in_key_gens, e) at h)
  ]

  register_secret_share-with_info :
      (j : ParticipantId) (share : ℕ) (w w' : World) (k : Known g w)
      → register_secret_share g j share w ≡ (ok tt, w')
      → with_info (record k.info { secret_shares = put j share k.info.secret_shares }) w ≡ w'
  unfolding register_secret_share key_gen_info ◌>>=◌
  register_secret_share-with_info j share w w' k h =
      elim (Bool-cases (has j k.info.secret_shares)) [
        | inl e ↦ absurd (ground (arith, rw (k.in_key_gens, e) at h))
        | inr e ↦ ap (λ r. r.1) (rw (k.in_key_gens, e) at h)
      ]

  -- What is missing of a ceremony, and that a part is complete just when nothing of it is missing.
  pub record Lacks (ids shares : List ParticipantId) (w : World) : Type 0 where
    pub commitments : missing_commitments g w ≡ (ok ids, w)
    pub commitments_complete : check_if_commitments_complete g w ≡ (ok (is_empty ids), w)
    pub secret_shares : missing_secret_shares g w ≡ (ok shares, w)
    pub secret_shares_complete : check_if_secret_shares_complete g w ≡ (ok (is_empty shares), w)

  Known-Lacks :
      (ids shares : List ParticipantId) (w : World) (k : Known g w)
      → lacking k.info.commitments (ids_of k.group) ≡ ids
      → lacking k.info.secret_shares (ids_of k.group) ≡ shares
      → Lacks ids shares w
  Known-Lacks ids shares w k e f = record {
    commitments = missing_commitments-lacking w k ∙ ap (λ l. (ok l, w)) e;
    commitments_complete =
        check_if_commitments_complete-lacking w k ∙ ap (λ l. (ok (is_empty l), w)) e;
    secret_shares = missing_secret_shares-lacking w k ∙ ap (λ l. (ok l, w)) f;
    secret_shares_complete =
        check_if_secret_shares_complete-lacking w k ∙ ap (λ l. (ok (is_empty l), w)) f;
  }

  -- If, of a group's ceremony, the commitments of some participants and the secret shares of
  -- some are missing, then registering a participant's commitments takes that participant from
  -- the first list and leaves the second as it is, and registering the participant's secret
  -- share takes it from the second and leaves the first, when they do not throw; before and
  -- after, the methods that check for completeness return true just when the list of what they
  -- check is empty.
  pub register-Lacks :
      (ids shares : List ParticipantId) (j : ParticipantId) (points : List FrostPoint) (share : ℕ)
      (w w' w'' : World)
      → missing_commitments g w ≡ (ok ids, w)
      → missing_secret_shares g w ≡ (ok shares, w)
      → register_commitments g j points w ≡ (ok tt, w')
      → register_secret_share g j share w ≡ (ok tt, w'')
      → Lacks ids shares w × Lacks (without j ids) shares w' × Lacks ids (without j shares) w''
  unfolding value ids_of
  register-Lacks ids shares j points share w w' w'' h h' r r' =
      let (k, e) = missing_commitments-Known ids w h in
      let f : lacking k.info.secret_shares (ids_of k.group) ≡ shares =
        ap (λ o. value o.0) (sym (missing_secret_shares-lacking w k) ∙ h') in
      let commitments = record k.info { commitments = put j points k.info.commitments } in
      let secret_shares = record k.info { secret_shares = put j share k.info.secret_shares } in
      (
        Known-Lacks ids shares w k e f,
        subst (Lacks (without j ids) shares) (register_commitments-with_info j points w w' k r) (
            Known-Lacks (without j ids) shares _ (with_info-Known commitments w k)
              (lacking-put j points k.info.commitments (ids_of k.group) ∙ ap (without j) e) f),
        subst (Lacks ids (without j shares)) (register_secret_share-with_info j share w w'' k r') (
            Known-Lacks ids (without j shares) _ (with_info-Known secret_shares w k) e
              (lacking-put j share k.info.secret_shares (ids_of k.group) ∙ ap (without j) f)),
      )
