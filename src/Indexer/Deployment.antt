-- ===== src/Indexer/Deployment.antt =====
-- The scope of a deployment (apps/indexer/src/materializer.ts: `deploymentScope`), and the rows of the
-- chain that packages/db/src/reorg.ts sees in the tables of Projections/Blocks.
use aqua_orbital.Prelude.{
  ℕ, Bool, not, List, [], ◌∷◌, Option, none, some, leb, ◌==◌, map, any, includes, if◌then◌else◌,
  Result, ok, ◌>>=◌, ◌>>◌, fail_if,
}
use aqua_orbital.Shared.{Token, Manifest, is_manifest}
use aqua_orbital.Chain.Table.{Cursor, Event, Coverage, Db, filter_by, hashes}
use aqua_orbital.Chain.Reorg.{
  Outcome, unchanged, rolled_back, resync_needed, cursor_changed, Reconciliation, reconcile,
}
use aqua_orbital.Chain.Reorg as Reorg
use aqua_orbital.Projections.{Source}
use aqua_orbital.Projections.Strategies
use aqua_orbital.Projections.Invoices
use aqua_orbital.Projections.Blocks.{Scope, LogRow, Covered, Store}
use aqua_orbital.Chain.Table.{Block}

pub data Error : Type 0 where
  invalid_manifest deployment_not_verified configuration_changed : Error

-- The public identity of a deployment.
pub record Identity : Type 0 where
  pub chain_id : ℕ
  pub aqua : ℕ
  pub router : ℕ
  pub payments : ℕ
  pub usdc : ℕ
  pub start_block : ℕ
  pub tokens : List (ℕ × ℕ × Bool)

-- `sort`, by address.
abbrev pub insert_token : ℕ × ℕ × Bool → List (ℕ × ℕ × Bool) → List (ℕ × ℕ × Bool)
insert_token t [] = t ∷ []
insert_token t (u ∷ us) = if leb t.0 u.0 then t ∷ u ∷ us else u ∷ insert_token t us

abbrev pub sorted_tokens : List Token → List (ℕ × ℕ × Bool)
sorted_tokens [] = []
sorted_tokens (t ∷ ts) = insert_token (t.address.value, t.decimals, t.mock) (sorted_tokens ts)

abbrev pub public_identity : Manifest → Identity
public_identity m = record {
  chain_id = m.chain_id;
  aqua = m.aqua.value;
  router = m.router.value;
  payments = m.payments.value;
  usdc = m.usdc.value;
  start_block = m.start_block;
  tokens = sorted_tokens m.tokens;
}

-- `deploymentScope`, with the JSON text of an identity.
unfoldable pub deployment_scope : (Identity → ℕ) → Manifest → Result Error Scope
deployment_scope text m = do
  fail_if (not (is_manifest m)) invalid_manifest
  fail_if (not m.verified) deployment_not_verified
  ok (record {
    aqua = m.aqua.value;
    router = m.router.value;
    payments = m.payments.value;
    start_block = m.start_block;
    identity = text (public_identity m);
  })

-- `deploymentCursor`
unfoldable pub deployment_cursor : Scope → Store → Result Error (Option Cursor)
deployment_cursor scope s = elim s.deployment [
  | none ↦ ok none
  | some identity ↦ fail_if (not (identity == scope.identity)) configuration_changed >> ok s.cursor
]

abbrev pub event_of : LogRow → Event
event_of l = record {
  block_hash = l.block_hash;
  tx_hash = l.tx_hash;
  log_index = l.log_index;
  emitter = l.emitter;
  topic = l.topic;
  payload = l.payload;
}

abbrev pub coverage_of : Covered → Coverage
coverage_of c = record { deployment = 0; height = c.height; hash = c.hash }

abbrev pub covered_of : Coverage → Covered
covered_of c = record { height = c.height; hash = c.hash }

abbrev pub cursor_rows : Option Cursor → List Coverage
cursor_rows none = []
cursor_rows (some c) = record { deployment = 0; height = c.height; hash = c.hash } ∷ []

abbrev pub first_cursor : List Coverage → Option Cursor
first_cursor [] = none
first_cursor (c ∷ cs) = some (record { height = c.height; hash = c.hash })

-- The tables of the chain. The notices of a rollback are those of Chain/Reorg, and are left out here.
abbrev pub chain_rows : Store → Db
chain_rows s = record {
  blocks = s.blocks;
  events = map event_of s.logs;
  cursor = s.chain;
  state = s.state;
  coverage = map coverage_of s.coverage;
  deployment_cursors = cursor_rows s.cursor;
  notices = [];
}

-- Whether a row's block is there: ON DELETE CASCADE, along the foreign keys.
abbrev pub stands : List Block → Source → Bool
stands bs s = includes s.block_hash (hashes bs)

-- The tables after a rollback of the chain's.
abbrev pub rewound : Store → Db → Store
rewound s db = record s {
  state = db.state;
  cursor = first_cursor db.deployment_cursors;
  chain = db.cursor;
  blocks = db.blocks;
  logs = filter_by (λ (l : LogRow). includes l.block_hash (hashes db.blocks)) s.logs;
  coverage = map covered_of db.coverage;
  unswapped =
      filter_by (λ (c : Covered). any (λ (d : Coverage). d.height == c.height) db.coverage)
        s.unswapped;
  strategies = record {
    snapshots =
        filter_by (λ (r : Strategies.Snapshot). stands db.blocks r.source) s.strategies.snapshots;
    receipts =
        filter_by (λ (r : Strategies.Receipt). stands db.blocks r.source) s.strategies.receipts;
  };
  invoices = filter_by (λ (r : Invoices.Snapshot). stands db.blocks r.source) s.invoices;
}

abbrev pub store_after : Outcome → Store → Db → Store
store_after rolled_back s db = rewound s db
store_after resync_needed s db = record s { state = db.state }
store_after unchanged s db = s
store_after cursor_changed s db = s

-- `reconcileCanonicalChain`, on these tables.
unfoldable pub reconcile_store :
    Cursor → List Block → Store → Result Reorg.Error (Reconciliation × Store)
reconcile_store expected canonical s =
    reconcile expected canonical (chain_rows s) >>= λ r. ok (r.0, store_after r.0.status s r.1)
