-- ===== src/Tests.antt =====
-- The theorems at concrete inputs.
use shieldnet.Store.Requests.{
  signers, message, nonce_commitments_map, signature_request, register_nonce_commitments,
}
use shieldnet.Store.Groups.{public_key, signing_share}
use shieldnet.Client.Nonces.{
  binding_factors, group_commitment_shares, calculate_group_commitment, add_points, binding_factor,
  binding_prefix, encode_commitments, group_commitment_share,
}
use shieldnet.Client.Shares.{
  lagrange_coefficient, lagrange_products, lagrange_challenge, group_challenge,
}
use shieldnet.Client.Signing.{sign_and_burn, signer_parts}
use shieldnet.Frost.Math.{times, divmod, submod}
use shieldnet.Frost.Vss.{h1, h2, h4, h5}
use shieldnet.Merkle.{
  at_or_zero, build_levels, hash_pair, last_level, neighbor, next_level, proof_in,
}
use shieldnet.Frost.Vss.{
  create_coefficients, generate_coefficient, create_proof_of_knowledge, create_commitments,
}
use shieldnet.Client.KeyGen.{setup_group}
use shieldnet.Keygen.Group.{calc_minimum_participants, calc_threshold}
use shieldnet.Frost.Math.{g, addmod, mulmod}
use shieldnet.Prelude.{
  All, suc, length, arith, ℕ, ◌/◌, ◌<◌, ◌≡◌, refl, ◌↔◌, List, [], ◌∷◌, Option, none, some, Bool,
  true, false, not, ◌&&◌, ◌==◌, includes, arith,
}
use shieldnet.Prelude.Assoc.{get, has}
use shieldnet.Data.Frost.{Hex}
use shieldnet.Data.Event.{block_new, event_at}
use shieldnet.Data.State.{epoch_skipped, epoch_staged, waiting_for_request}
use shieldnet.Store.Defs.{Result, ok, err, ◌>>=◌, nonce_already_burned, chunk_already_linked}
use shieldnet.Store.Ensures.{Post}
use shieldnet.Store.Groups.{
  group_info, threshold, verification_share, participants, participant_id, register_group,
}
use shieldnet.Store.Nonces.{chunk_id, register_nonce_tree, link_nonce_tree, nonce_tree, burn_nonce}
use shieldnet.Store.Linking.{nonce_tree-link_nonce_tree}
use shieldnet.Store.Completeness.{Lacks, without, register-Lacks}
use shieldnet.Store.Calls.{
  StorageCall, call_register_nonce_commitments, call_random_bytes, call_register_nonce_tree,
  call_link_nonce_tree, call_burn_nonce, after_call, after_calls, Spares,
}
use shieldnet.Store.KeyGens.{
  register_key_gen, key_gen_info, missing_commitments, missing_secret_shares, register_commitments,
  register_secret_share,
}
use shieldnet.Merkle.{
  generate_merkle_proof_with_root, calculate_merkle_root, verify_merkle_proof, build_merkle_tree,
  last_level, calculate_participants_root, generate_participant_proof,
}
use shieldnet.Merkle.Proof.{generate_merkle_proof-verifies}
use shieldnet.Client.Burning.{burn_nonce-twice}
use shieldnet.Client.Reuse.{Requests, create_signature_share-once}
use shieldnet.Store.Requests.{signing_group, sequence}
use shieldnet.Store.Defs.{World, Failure}
use shieldnet.Client.Nonces.{decode_sequence}
use shieldnet.Client.Signing.{create_signature_share}
use shieldnet.Client.Shares.{sign_share, verify_signature_share}
use shieldnet.Keygen.Trigger.{trigger_key_gen, is_waiting_for_genesis}
use shieldnet.Keygen.Quorum.{Quorum, trigger_key_gen-Quorum}
use shieldnet.State.Diff.{no_diff, apply_diff}
use shieldnet.State.Local.{overlay, entries, read, new_transition_state, apply, write}
use shieldnet.State.Refine.{Tracks, apply-Tracks, get-entries, new_transition_state-Tracks}
use shieldnet.Service.{process, run, progress_to_block, is_stale}
use shieldnet.Service.Order.{process-event_at-once, process-event_at-position}
use shieldnet.Service.Atomic.{InStep, progress_to_block-InStep}
use shieldnet.Service.Deadlines.{process-block_new-renews}
use shieldnet.Rollover.{Reach}
use shieldnet.Rollover.Process.{process-Reach, block_of}
use shieldnet.Rollover.Accounting.{IsAccounted, complaints_in, run-IsAccounted, run-started}
use shieldnet.Tests.Libraries.{point, libraries, summing}
use shieldnet.Tests.Fixtures.{
  config, validators, world, linked, two_nonces, burned_first, ceremony, fresh_world, value_or,
  machine_in, disputed, complaint, complaints, late_request,
}
use shieldnet.Signing.Request.{Balance, count_available}
use shieldnet.Signing.Chunks.{count_available-returns}
use shieldnet.Tests.Fixtures.{requested, used, share, linked_by_sum}
mod Libraries
mod Fixtures
mod Machine
mod Watching
mod Sending
mod Checking
mod Delivering

generate_merkle_proof-verifies_example :
    (proof : List Hex) × (root : Hex) × (generate_merkle_proof_with_root libraries
        (5 ∷ 9 ∷ 4 ∷ [])
        2
        world
      ≡ (ok (proof, root), world))
    × (calculate_merkle_root libraries (5 ∷ 9 ∷ 4 ∷ []) world ≡ (ok root, world))
    × (verify_merkle_proof libraries root 4 proof ≡ true)
generate_merkle_proof-verifies_example =
    generate_merkle_proof-verifies libraries (5 ∷ 9 ∷ 4 ∷ []) 2 4 world refl

asked : Requests 90 50 0 requested
unfolding signing_group sequence ◌>>=◌
asked = record { in_group = refl; at_sequence = refl }

-- In between, the third signer's nonces for the other request come in, and a new tree is made.
abbrev meanwhile : List StorageCall
meanwhile =
    call_register_nonce_commitments 91 3
      (record { hiding_nonce_commitment = point 3; binding_nonce_commitment = point 4 })
    ∷ call_random_bytes
    ∷ call_register_nonce_tree 50 (record { commitments = []; leaves = []; root = 400 })
    ∷ call_link_nonce_tree 50 0 400
    ∷ call_burn_nonce 50 0 1
    ∷ []

abbrev later : World
later = after_calls libraries meanwhile used

meanwhile-Spares : All (Spares 300) meanwhile
meanwhile-Spares = (tt, (tt, ((λ e. absurd (omega arith)), (tt, (tt, tt)))))

asked_again : Requests 91 50 0 later
unfolding signing_group sequence signature_request ◌>>=◌ after_calls after_call burn_nonce
    link_nonce_tree register_nonce_tree register_nonce_commitments chunk_id
asked_again = record { in_group = refl; at_sequence = refl }

create_signature_share-once_example :
    (e : Failure) × (create_signature_share libraries 91 later ≡ (err e, later))
unfolding create_signature_share ◌>>=◌ signing_group signers participant_id public_key signing_share
    nonce_commitments_map message binding_factors group_commitment_shares times
    calculate_group_commitment lagrange_coefficient divmod sequence nonce_tree add_points
    binding_factor binding_prefix decode_sequence encode_commitments group_commitment_share
    group_challenge lagrange_challenge lagrange_products sign_share verify_signature_share
    sign_and_burn signer_parts addmod g mulmod submod h1 h2 h4 h5 at_or_zero build_levels
    build_merkle_tree generate_merkle_proof_with_root hash_pair last_level neighbor next_level
    proof_in group_info verification_share burn_nonce signature_request chunk_id
create_signature_share-once_example =
    create_signature_share-once libraries 90 91 50 0 requested used share 300 meanwhile asked refl
      refl meanwhile-Spares asked_again

burn_nonce-twice_example :
    burn_nonce libraries 50 0 0 burned_first ≡ (err nonce_already_burned, burned_first)
unfolding burn_nonce ◌>>=◌ link_nonce_tree register_nonce_tree chunk_id
burn_nonce-twice_example = burn_nonce-twice libraries 50 0 0 linked burned_first refl

nonce_tree-link_nonce_tree_example :
    (nonce_tree libraries 50 0 linked ≡ (ok two_nonces, linked))
    × (link_nonce_tree libraries 50 0 8 linked ≡ (err chunk_already_linked, linked))
unfolding ◌>>=◌ link_nonce_tree register_nonce_tree
nonce_tree-link_nonce_tree_example =
    nonce_tree-link_nonce_tree libraries 50 0 two_nonces 8 world linked refl

-- A ceremony of the group 50 that has the commitments of the first validator.
abbrev collecting : World
collecting = record world {
  store = record world.store {
    key_gen_info =
        (50, record { coefficients = 7 ∷ []; commitments = (1, []) ∷ []; secret_shares = [] }) ∷ [];
  };
}

abbrev committed : World
committed = (register_commitments 50 3 [] collecting).1

abbrev shared : World
shared = (register_secret_share 50 3 8 collecting).1

register-Lacks_example :
    Lacks 50 (2 ∷ 3 ∷ []) (1 ∷ 2 ∷ 3 ∷ []) collecting
    × Lacks 50 (without 3 (2 ∷ 3 ∷ [])) (1 ∷ 2 ∷ 3 ∷ []) committed
    × Lacks 50 (2 ∷ 3 ∷ []) (without 3 (1 ∷ 2 ∷ 3 ∷ [])) shared
unfolding missing_commitments missing_secret_shares register_commitments register_secret_share
    participants group_info key_gen_info ◌>>=◌
register-Lacks_example =
    register-Lacks 50 (2 ∷ 3 ∷ []) (1 ∷ 2 ∷ 3 ∷ []) 3 [] 8 collecting committed shared refl refl
      refl refl

trigger_key_gen-Quorum_example : Quorum config 3 validators (value_or no_diff ceremony)
unfolding trigger_key_gen ◌>>=◌ calc_minimum_participants setup_group calculate_participants_root
    register_group create_coefficients calc_threshold generate_coefficient register_key_gen
    create_proof_of_knowledge g create_commitments generate_participant_proof
trigger_key_gen-Quorum_example =
    trigger_key_gen-Quorum libraries config 3 31 validators 70 fresh_world ceremony.1
      (value_or no_diff ceremony) refl

chunk_ids_differ : (i j : ℕ) → chunk_id summing 50 i ≡ chunk_id summing 50 j → i ≡ j
unfolding chunk_id
chunk_ids_differ i j h = omega (arith, h)

count_available-returns_example :
    (b : Balance) × (count_available summing
        (suc (length linked_by_sum.store.chunk_nonces))
        50
        0
        1
        (record { gained = 0; lost = 0 })
        linked_by_sum
      ≡ (ok b, linked_by_sum))
count_available-returns_example =
    count_available-returns summing 50 chunk_ids_differ 0 1 (record { gained = 0; lost = 0 })
      linked_by_sum
