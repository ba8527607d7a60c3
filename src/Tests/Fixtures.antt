-- ===== src/Tests/Fixtures.antt =====
-- Concrete data for the tests: three validators, and machines with a group that has its keys.
use shieldnet.Prelude.{ℕ, List, [], ◌∷◌, none, some, false}
use shieldnet.Data.Frost.{Participant, NonceTree, NonceCommitments}
use shieldnet.Data.Packet.{Packet, epoch_rollover_packet}
use shieldnet.Data.Event.{EventTransition, event_key_gen_complaint_submitted}
use shieldnet.Data.State.{
  RolloverState, Complaints, SigningState, StateDiff, ConsensusState, MachineConfig,
  collecting_shares, waiting_for_request,
}
use shieldnet.Tests.Libraries.{point, libraries, summing}
use shieldnet.Store.Defs.{World, StoredGroup, SignatureRequest, Result, ok, err}
use shieldnet.Store.Nonces.{register_nonce_tree, link_nonce_tree, burn_nonce}
use shieldnet.Client.Signing.{SignatureShare}
use shieldnet.Keygen.Trigger.{trigger_key_gen}
use shieldnet.Service.{Machine}

abbrev pub validators : List Participant
validators =
    record { id = 1; address = 11 }
    ∷ record { id = 2; address = 12 }
    ∷ record { id = 3; address = 13 }
    ∷ []

abbrev pub config : MachineConfig
config = record {
  default_participants = validators;
  genesis_salt = 0;
  key_gen_timeout = 6;
  signing_timeout = 5;
  blocks_per_epoch = 10;
}

abbrev nonces : ℕ → ℕ → NonceCommitments
nonces h b = record {
  hiding_nonce = h;
  binding_nonce = b;
  shared = record { hiding_nonce_commitment = point h; binding_nonce_commitment = point b };
}

abbrev pub two_nonces : NonceTree
two_nonces = record {
  commitments = nonces 5 6 ∷ nonces 7 8 ∷ [];
  leaves = 301 ∷ 302 ∷ [];
  root = 300;
}

abbrev pub group : StoredGroup
group = record {
  group_id = 50;
  participants = validators;
  participant_id = 1;
  threshold = 2;
  verification_share = some (point 9);
  group_public_key = some (point 20);
  signing_share = some 9;
}

-- The state of the first validator, which has the group 50 and an unused nonce tree for it.
abbrev pub world : World
world = record {
  store = record {
    account = 11;
    key_gen_info = [];
    group_info = (50, group) ∷ [];
    nonce_trees = [];
    chunk_nonces = [];
    signature_requests = [];
  };
  verified = [];
  drawn = 0;
}

-- The same validator before it knows of any group.
abbrev pub fresh_world : World
fresh_world = record world { store = record world.store { group_info = [] } }

-- The packet of the rollover from epoch 2 to epoch 5, which the group of epoch 2 signs.
abbrev pub rollover_to_five : Packet
rollover_to_five = epoch_rollover_packet (record {
  domain = record { chain = 1; consensus = 40 };
  rollover = record {
    active_epoch = 2;
    proposed_epoch = 5;
    rollover_block = 50;
    group_key_x = 20;
    group_key_y = 20;
  };
})

abbrev pub consensus_state : ConsensusState
consensus_state = record {
  genesis_group_id = some 50;
  active_epoch = 2;
  group_pending_nonces = [];
  epoch_groups = (2, record { group_id = 50; participant_id = 1 }) ∷ [];
  signature_id_to_message = [];
}

-- A request for the signers 1, 2 and 3, of which 1 let the deadline 20 pass.
abbrev pub late_request : SigningState
late_request = record {
  packet = rollover_to_five;
  deadline = 20;
  phase = waiting_for_request (some 1) (1 ∷ 2 ∷ 3 ∷ []);
}

abbrev pub machine_in : RolloverState → Machine
machine_in rollover = record {
  core = record { world = world; last_processed_block = 20; last_processed_index = some 4 };
  storage = record {
    consensus = consensus_state;
    machines = record { rollover = rollover; signing = (77, late_request) ∷ [] };
  };
  calls = 0;
}

abbrev pub complaints : List (ℕ × Complaints)
complaints = (3, record { unresponded = 0; total = 1 }) ∷ []

-- A ceremony for epoch 3 with an answered complaint against 3.
abbrev pub disputed : RolloverState
disputed = collecting_shares (record {
  group_id = 50;
  next_epoch = 3;
  deadline = 90;
  complaints = complaints;
  missing_shares_from = [];
  last_participant = none;
})

-- The participant 3 complains about 2.
abbrev pub complaint : EventTransition
complaint = record {
  block = 20;
  index = 5;
  event =
      event_key_gen_complaint_submitted
        (record { gid = 50; plaintiff = 3; accused = 2; compromised = false });
}

-- What a computation returned, or another value where it threw.
abbrev pub value_or : {A : Type 0} → A → Result A × World → A
value_or default (ok a, w) = a
value_or default (err e, w) = default

-- The state with the two nonces linked to the chunk 0 of the group 50.
abbrev pub linked : World
linked = (link_nonce_tree libraries 50 0 300 (register_nonce_tree 50 two_nonces world).1).1

abbrev pub burned_first : World
burned_first = (burn_nonce libraries 50 0 0 linked).1

abbrev pub ceremony : Result StateDiff × World
ceremony = trigger_key_gen libraries config 3 31 validators 70 fresh_world

abbrev pub linked_by_sum : World
linked_by_sum = (link_nonce_tree summing 50 0 300 (register_nonce_tree 50 two_nonces world).1).1

-- A request for the first nonces, to which the signers 1 and 2 have revealed theirs.
abbrev request : SignatureRequest
request = record {
  sequence = 0;
  group_id = 50;
  message = 66;
  signer_nonce_commitments = (1, (nonces 5 6).shared) ∷ (2, (nonces 30 31).shared) ∷ [];
  signers = 1 ∷ 2 ∷ [];
}

-- The state with this request and another like it, and a given nonce tree.
abbrev with_tree : NonceTree → World
with_tree tree = record world {
  store = record world.store {
    nonce_trees = (300, tree) ∷ [];
    chunk_nonces = (4077, 300) ∷ [];
    signature_requests = (90, request) ∷ (91, request) ∷ [];
  };
}

abbrev pub requested : World
requested = with_tree two_nonces

-- The state after the first nonces were used.
abbrev pub used : World
used = with_tree (record two_nonces {
  commitments = record (nonces 5 6) { hiding_nonce = 0; binding_nonce = 0 } ∷ nonces 7 8 ∷ [];
})

abbrev pub share : SignatureShare
share = record {
  signers_root = 2451;
  signers_proof = 7158 ∷ [];
  group_commitment = point 40;
  commitment_share = point 75;
  signature_share = 71;
  lagrange_coefficient = 2;
}
