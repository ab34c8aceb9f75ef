-- ===== src/Deploy/Arc/Completion/Verified.antt =====
-- What an activation of an Arc deployment has verified (scripts/lib/arc-deployment.mjs,
-- `activateArcDeployment`).
use aqua_orbital.Prelude.{ℕ, ◌≡◌, false, List, Option, none, map, length, Result, ok, err}
use aqua_orbital.Deploy.Arc.{Error, State, Rpc}
use aqua_orbital.Deploy.Arc.Refreshed.{AllConfirmed}
use aqua_orbital.Deploy.Arc.Status.{Network}
use aqua_orbital.Deploy.Arc.Bindings.{Contracts, expected_reads}
use aqua_orbital.Deploy.Arc.Bindings.Shown.{AllRead}
use aqua_orbital.Deploy.Arc.Completion.{
  Loaded, Saved, Manifest, Report, Completion, save, is_other_manifest, receipted,
}

-- A complete deployment: each step of the plan has its confirmed entry, none is pending, and the contracts
-- have answered what is expected of them.
pub record IsCompleted (keccak : List ℕ → ℕ) (order_hash : ℕ → ℕ → ℕ → ℕ) (rpc : Rpc)
    (contracts : Contracts) (clock : ℕ) (l : Loaded) (state : State) : Type 0 where
  pub confirmed : AllConfirmed rpc l.prepared.plan l.prepared.plan.steps state.confirmed
  pub whole : length state.confirmed ≡ length l.prepared.plan.steps
  pub idle : state.pending_hash ≡ none
  pub bound : AllRead contracts clock (
      expected_reads keccak order_hash l.prepared.self_deploy_aqua l.prepared.plan.deployer
        l.addresses l.tokens)

-- What the files of an activation show.
pub record IsActivated (keccak : List ℕ → ℕ) (order_hash : ℕ → ℕ → ℕ → ℕ) (rpc : Rpc)
    (contracts : Contracts) (clock : ℕ) (l : Loaded) (existing : Option Manifest)
    (files : Report × Manifest) (after : Saved) : Type 0 where
  pub state : State
  pub complete : IsCompleted keccak order_hash rpc contracts clock l state
  pub saved : after ≡ save l state
  pub receipts : files.0.receipts ≡ map receipted state.confirmed
  pub published : files.0.manifest ≡ files.1
  pub addresses : files.1.addresses ≡ l.addresses
  pub kept : is_other_manifest existing files.1 ≡ false

module _ (keccak : List ℕ → ℕ) (order_hash : ℕ → ℕ → ℕ → ℕ) (rpc : Rpc) (net : Network)
    (contracts : Contracts) (clock : ℕ) (l : Loaded) where
  -- What a completion that does not throw shows, with the state that is saved.
  abbrev IsVerified : Result Error Completion × Saved → Type 0
  IsVerified (err x, after) = Unit
  IsVerified (ok done, after) =
      IsCompleted keccak order_hash rpc contracts clock l done.state
      × (after ≡ save l done.state)
      × (done.manifest.addresses ≡ l.addresses)
