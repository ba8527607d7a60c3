-- ===== src/Keygen/Group.antt =====
-- validator/src/machine/keygen/group.ts and utils.ts: the parameters of a group.
use shieldnet.Prelude.{
  ℕ, ◌+◌, ◌*◌, ◌/◌, [], ◌∷◌, Option, none, some, max, ◌==◌, length, if◌then◌else◌,
}
use shieldnet.Data.Frost.{Hex, GroupId}
use shieldnet.Data.State.{MachineConfig}
use shieldnet.Data.External.{External, uint32, address, uint64, text, bytes32}
use shieldnet.Store.Defs.{M, ◌>>=◌, pure}
use shieldnet.Merkle.{calculate_participants_root}
use shieldnet.Client.KeyGen.{calc_group_id}

unfoldable pub calc_minimum_participants : MachineConfig → ℕ
calc_minimum_participants cfg = max 2 (length cfg.default_participants * 2 / 3 + 1)

unfoldable pub calc_threshold : ℕ → ℕ
calc_threshold participant_count = participant_count / 2 + 1

pub record GenesisGroup : Type 0 where
  pub id : GroupId
  pub participants_root : Hex
  pub count : ℕ
  pub threshold : ℕ
  pub context : Hex

-- The text "genesis" as the encoder takes it.
abbrev pub genesis_text : ℕ
genesis_text = 0x67656e65736973

module _ (ext : External) where
  unfoldable pub calc_group_context : ℕ → Hex
  calc_group_context epoch =
      ext.encode_packed (uint32 0 ∷ address ext.consensus ∷ uint64 epoch ∷ [])

  unfoldable pub genesis_context : MachineConfig → Hex
  genesis_context cfg =
      if cfg.genesis_salt == ext.zero_hash
      then ext.zero_hash
      else ext.keccak256 (ext.encode_packed (text genesis_text ∷ bytes32 cfg.genesis_salt ∷ []))

  unfoldable pub calc_genesis_group : MachineConfig → M GenesisGroup
  unfolding calc_threshold genesis_context
  calc_genesis_group cfg = do
    participants_root ← calculate_participants_root ext cfg.default_participants
    let count = length cfg.default_participants
    let context = genesis_context cfg
    pure (record {
      id = calc_group_id ext participants_root count (calc_threshold count) context;
      participants_root = participants_root;
      count = count;
      threshold = calc_threshold count;
      context = context;
    })

  unfoldable pub build_key_gen_callback : MachineConfig → ℕ → Option Hex
  build_key_gen_callback cfg next_epoch =
      if next_epoch == 0
      then none
      else some (
          ext.encode_abi_parameters
            (uint64 next_epoch ∷ uint64 (next_epoch * cfg.blocks_per_epoch) ∷ []))
