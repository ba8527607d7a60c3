-- ===== src/Client/Persistence.antt =====
-- Burned nonces stay burned, whatever the client's storage is asked to do.
use shieldnet.Prelude.{some-inj, ℕ, ◌≡◌, refl, sym, ap, ◌∙◌, List, [], ◌∷◌, some, All}
use shieldnet.Prelude.Assoc.{get}
use shieldnet.Data.Frost.{
  Hex, GroupId, SignatureId, ParticipantId, Participant, FrostPoint, PublicNonceCommitments,
}
use shieldnet.Data.External.{External}
use shieldnet.Store.Defs.{KeyGenInfo, StoredGroup, SignatureRequest, storage, World, ◌>>=◌}
use shieldnet.Store.Ensures.{require-IsReadOnly}
use shieldnet.Store.Groups.{
  put_group, register_group, register_verification, register_signing_share, unregister_group,
}
use shieldnet.Store.KeyGens.{
  put_key_gen, register_key_gen, register_commitments, register_secret_share, clear_key_gen,
}
use shieldnet.Store.Requests.{put_request, register_signature_request, register_nonce_commitments}
use shieldnet.Store.Nonces.{chunk_id}
use shieldnet.Store.Calls.{
  StorageCall, call_register_key_gen, call_register_commitments, call_register_secret_share,
  call_clear_key_gen, call_register_group, call_register_verification, call_register_signing_share,
  call_unregister_group, call_register_signature_request, call_register_nonce_commitments,
  call_register_nonce_tree, call_link_nonce_tree, call_burn_nonce, call_random_bytes,
  message_verified, after_call, after_calls, Spares,
}
use shieldnet.Client.Reading.{group_info-IsReadOnly, signature_request-IsReadOnly}
use shieldnet.Client.Burning.{Burned}
use shieldnet.Client.Keeping.{
  BurnedIn, Keeps, then-Keeps, read-Keeps, same_nonces, write-Keeps, guarded, key_gen_info-Keeps,
  register_nonce_tree-Keeps, link_nonce_tree-Keeps, burn_nonce-Keeps,
}

module _ (ext : External) (g : GroupId) (chunk offset : ℕ) (hash : Hex) where
  put_key_gen-Keeps :
      (i : GroupId) (info : KeyGenInfo) → Keeps ext g chunk offset hash (put_key_gen i info)
  unfolding ◌>>=◌
  put_key_gen-Keeps i info = write-Keeps ext g chunk offset hash (λ w. refl) (λ w. refl)

  put_group-Keeps :
      (i : GroupId) (group : StoredGroup) → Keeps ext g chunk offset hash (put_group i group)
  unfolding ◌>>=◌
  put_group-Keeps i group = write-Keeps ext g chunk offset hash (λ w. refl) (λ w. refl)

  put_request-Keeps :
      (i : SignatureId) (r : SignatureRequest) → Keeps ext g chunk offset hash (put_request i r)
  unfolding ◌>>=◌
  put_request-Keeps i r = write-Keeps ext g chunk offset hash (λ w. refl) (λ w. refl)

  storage-Keeps : Keeps ext g chunk offset hash storage
  storage-Keeps = read-Keeps ext g chunk offset hash (λ w. refl)

  register_key_gen-Keeps :
      (i : GroupId) (cs : List ℕ) → Keeps ext g chunk offset hash (register_key_gen i cs)
  unfolding register_key_gen
  register_key_gen-Keeps i cs =
      then-Keeps ext g chunk offset hash
        (read-Keeps ext g chunk offset hash (group_info-IsReadOnly i))
        λ _.
          then-Keeps ext g chunk offset hash storage-Keeps
            λ s. guarded ext g chunk offset hash _ _ (put_key_gen-Keeps i _)

  register_commitments-Keeps :
      (i : GroupId) (p : ParticipantId) (c : List FrostPoint)
      → Keeps ext g chunk offset hash (register_commitments i p c)
  unfolding register_commitments
  register_commitments-Keeps i p c =
      then-Keeps ext g chunk offset hash (key_gen_info-Keeps ext g chunk offset hash i)
        λ info. guarded ext g chunk offset hash _ _ (put_key_gen-Keeps i _)

  register_secret_share-Keeps :
      (i : GroupId) (p : ParticipantId) (n : ℕ)
      → Keeps ext g chunk offset hash (register_secret_share i p n)
  unfolding register_secret_share
  register_secret_share-Keeps i p n =
      then-Keeps ext g chunk offset hash (key_gen_info-Keeps ext g chunk offset hash i)
        λ info. guarded ext g chunk offset hash _ _ (put_key_gen-Keeps i _)

  clear_key_gen-Keeps : (i : GroupId) → Keeps ext g chunk offset hash (clear_key_gen i)
  unfolding clear_key_gen ◌>>=◌
  clear_key_gen-Keeps i = write-Keeps ext g chunk offset hash (λ w. refl) (λ w. refl)

  register_group-Keeps :
      (i : GroupId) (ps : List Participant) (n : ℕ)
      → Keeps ext g chunk offset hash (register_group i ps n)
  unfolding register_group
  register_group-Keeps i ps n = then-Keeps ext g chunk offset hash storage-Keeps λ s.
      guarded ext g chunk offset hash _ _ (
        then-Keeps ext g chunk offset hash
          (read-Keeps ext g chunk offset hash (require-IsReadOnly _ _))
          λ p.
            then-Keeps ext g chunk offset hash (put_group-Keeps i _)
              λ _. read-Keeps ext g chunk offset hash (λ w. refl))

  register_verification-Keeps :
      (i : GroupId) (key share : FrostPoint)
      → Keeps ext g chunk offset hash (register_verification i key share)
  unfolding register_verification
  register_verification-Keeps i key share =
      then-Keeps ext g chunk offset hash
        (read-Keeps ext g chunk offset hash (group_info-IsReadOnly i))
        λ info. guarded ext g chunk offset hash _ _ (put_group-Keeps i _)

  register_signing_share-Keeps :
      (i : GroupId) (n : ℕ) → Keeps ext g chunk offset hash (register_signing_share i n)
  unfolding register_signing_share
  register_signing_share-Keeps i n =
      then-Keeps ext g chunk offset hash
        (read-Keeps ext g chunk offset hash (group_info-IsReadOnly i))
        λ info. guarded ext g chunk offset hash _ _ (put_group-Keeps i _)

  unregister_group-Keeps : (i : GroupId) → Keeps ext g chunk offset hash (unregister_group i)
  unfolding unregister_group ◌>>=◌
  unregister_group-Keeps i = write-Keeps ext g chunk offset hash (λ w. refl) (λ w. refl)

  register_signature_request-Keeps :
      (i : SignatureId) (j : GroupId) (m : Hex) (ids : List ParticipantId) (n : ℕ)
      → Keeps ext g chunk offset hash (register_signature_request i j m ids n)
  unfolding register_signature_request
  register_signature_request-Keeps i j m ids n =
      then-Keeps ext g chunk offset hash
        (read-Keeps ext g chunk offset hash (group_info-IsReadOnly j))
        λ _.
          then-Keeps ext g chunk offset hash storage-Keeps
            λ s. guarded ext g chunk offset hash _ _ (put_request-Keeps i _)

  register_nonce_commitments-Keeps :
      (i : SignatureId) (p : ParticipantId) (c : PublicNonceCommitments)
      → Keeps ext g chunk offset hash (register_nonce_commitments i p c)
  unfolding register_nonce_commitments
  register_nonce_commitments-Keeps i p c =
      then-Keeps ext g chunk offset hash
        (read-Keeps ext g chunk offset hash (signature_request-IsReadOnly i))
        λ r. guarded ext g chunk offset hash _ _ (put_request-Keeps i _)

  after_call-BurnedIn :
      (c : StorageCall) (w : World)
      → Spares hash c
      → BurnedIn ext g chunk offset hash w
      → BurnedIn ext g chunk offset hash (after_call ext c w)
  unfolding after_call
  after_call-BurnedIn (call_register_key_gen i cs) w s = (register_key_gen-Keeps i cs).post w
  after_call-BurnedIn (call_register_commitments i p c) w s =
      (register_commitments-Keeps i p c).post w
  after_call-BurnedIn (call_register_secret_share i p n) w s =
      (register_secret_share-Keeps i p n).post w
  after_call-BurnedIn (call_clear_key_gen i) w s = (clear_key_gen-Keeps i).post w
  after_call-BurnedIn (call_register_group i ps n) w s = (register_group-Keeps i ps n).post w
  after_call-BurnedIn (call_register_verification i k v) w s =
      (register_verification-Keeps i k v).post w
  after_call-BurnedIn (call_register_signing_share i n) w s =
      (register_signing_share-Keeps i n).post w
  after_call-BurnedIn (call_unregister_group i) w s = (unregister_group-Keeps i).post w
  after_call-BurnedIn (call_register_signature_request i j m ids n) w s =
      (register_signature_request-Keeps i j m ids n).post w
  after_call-BurnedIn (call_register_nonce_commitments i p c) w s =
      (register_nonce_commitments-Keeps i p c).post w
  after_call-BurnedIn (call_register_nonce_tree i t) w s =
      (register_nonce_tree-Keeps ext g chunk offset hash i t s).post w
  after_call-BurnedIn (call_link_nonce_tree i c h) w s =
      (link_nonce_tree-Keeps ext g chunk offset hash i c h).post w
  after_call-BurnedIn (call_burn_nonce i c o) w s =
      (burn_nonce-Keeps ext g chunk offset hash i c o).post w
  after_call-BurnedIn call_random_bytes w s = same_nonces ext g chunk offset hash w _ refl refl
  after_call-BurnedIn (message_verified m) w s = same_nonces ext g chunk offset hash w _ refl refl

  after_calls-BurnedIn :
      (cs : List StorageCall) (w : World)
      → All (Spares hash) cs
      → BurnedIn ext g chunk offset hash w
      → BurnedIn ext g chunk offset hash (after_calls ext cs w)
  unfolding after_calls
  after_calls-BurnedIn [] w s b = b
  after_calls-BurnedIn (c ∷ cs) w s b =
      after_calls-BurnedIn cs (after_call ext c w) s.1 (after_call-BurnedIn c w s.0 b)

-- A burned entry is still burned after any calls of the storage, failed ones included, none of which
-- registers a tree with the root of the one that holds it.
pub after_calls-Burned :
    (ext : External) (g : GroupId) (chunk offset : ℕ) (hash : Hex) (cs : List StorageCall)
    (w : World)
    → get (chunk_id ext g chunk) w.store.chunk_nonces ≡ some hash
    → All (Spares hash) cs
    → Burned ext g chunk offset w
    → Burned ext g chunk offset (after_calls ext cs w)
after_calls-Burned ext g chunk offset hash cs w l s b =
    let start : BurnedIn ext g chunk offset hash w = record {
      tree = b.tree;
      linked = l;
      known = ap (λ h. get h w.store.nonce_trees) (some-inj (sym l ∙ b.linked)) ∙ b.known;
      burnt = record { entry = b.entry; found = b.found; spent = b.spent };
    } in
    let later = after_calls-BurnedIn ext g chunk offset hash cs w s start in
    record {
      tree_hash = hash;
      tree = later.tree;
      entry = later.burnt.entry;
      linked = later.linked;
      known = later.known;
      found = later.burnt.found;
      spent = later.burnt.spent;
    }
