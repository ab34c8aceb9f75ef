-- ===== src/Deploy/Arc/Bindings.antt =====
-- What the contracts of an Arc deployment answer about each other (scripts/lib/arc-deployment.mjs:
-- `bindings`). An answer is the list of the getter's outputs, and an address or a hash in it is a number.
-- `order_hash` is the library's `hashTypedData` of an empty order.
pub mod Shown
use aqua_orbital.Prelude.{
  ℕ, ◌*◌, ◌^◌, Bool, true, false, ◌&&◌, not, List, [], ◌∷◌, ◌++◌, Option, none, some, ◌==◌,
  if◌then◌else◌, Result, ok, ◌>>=◌, ◌>>◌, fail_if, or_fail,
}
use aqua_orbital.Text.{same_text}
use aqua_orbital.Indexer.Canonical.{same_option, same_flag}
use aqua_orbital.Sdk.Amount.{digits}
use aqua_orbital.Deploy.Arc.{
  Error, rpc_failed, not_a_number, noncanonical_getter, binding_mismatch, block_orphaned,
  arc_chain_id,
}
use aqua_orbital.Deploy.Arc.Status.{Latest, Network, arc_usdc, check_network}

pub data Scalar : Type 0 where
  natural : ℕ → Scalar
  flag : Bool → Scalar
  text : List ℕ → Scalar
  no_items : Scalar

-- The getters that are read, with their arguments.
pub data Getter : Type 0 where
  aqua_owner aqua_multicall : Getter
  router_aqua router_weth router_chain_id router_owner router_domain : Getter
  router_order_typehash router_hash : Getter
  router_allowed_token router_token_decimals : ℕ → Getter
  payments_usdc payments_router : Getter
  payments_allowed_token : ℕ → Getter
  demo_decimals demo_chain_id demo_name demo_symbol demo_faucet_amount demo_cooldown : Getter

-- An answer, and whether it encodes back to the same data.
pub record Answer : Type 0 where
  pub outputs : List Scalar
  pub is_canonical : Bool

-- A getter of a contract at the pinned block, and the hash of that block when it is asked for again.
pub record Contracts : Type 0 where
  pub call : ℕ → ℕ → Getter → Option Answer
  pub again : ℕ → Option (Option (Option ℕ))

pub record Token : Type 0 where
  pub address : ℕ
  pub decimals : ℕ
  pub symbol : List ℕ
  pub is_mock : Bool

pub record Addresses : Type 0 where
  pub aqua : ℕ
  pub router : ℕ
  pub payments : ℕ

-- A call of `read`, with the value that its result is compared with.
pub record Expected : Type 0 where
  pub to : ℕ
  pub getter : Getter
  pub outputs : List Scalar

abbrev pub same_scalar : Scalar → Scalar → Bool
same_scalar (natural n) (natural m) = n == m
same_scalar (flag a) (flag b) = same_flag a b
same_scalar (text s) (text t) = same_text s t
same_scalar no_items no_items = true
same_scalar _ _ = false

abbrev pub same_outputs : List Scalar → List Scalar → Bool
same_outputs [] [] = true
same_outputs (x ∷ xs) (y ∷ ys) = same_scalar x y && same_outputs xs ys
same_outputs _ _ = false

-- The calls of `read`, in order.
unfoldable pub check_reads : Contracts → ℕ → List Expected → Result Error (Unit {0})
check_reads contracts clock [] = ok tt
check_reads contracts clock (e ∷ es) = do
  found ← or_fail (contracts.call clock e.to e.getter) rpc_failed
  fail_if (not found.is_canonical) noncanonical_getter
  fail_if (not (same_outputs found.outputs e.outputs)) binding_mismatch
  check_reads contracts clock es

abbrev pub expect : ℕ → Getter → Scalar → Expected
expect to getter output = record { to = to; getter = getter; outputs = output ∷ [] }

abbrev pub orbital : List ℕ
orbital = b'O' ∷ b'r' ∷ b'b' ∷ b'i' ∷ b't' ∷ b'a' ∷ b'l' ∷ []

-- `Order(address maker,uint256 traits,bytes data)`
abbrev pub order_type : List ℕ
order_type =
    79 ∷ 114 ∷ 100 ∷ 101 ∷ 114 ∷ 40 ∷ 97 ∷ 100 ∷ 100 ∷ 114 ∷ 101 ∷ 115 ∷ 115 ∷ 32 ∷ 109 ∷ 97 ∷ 107
    ∷ 101 ∷ 114 ∷ 44 ∷ 117 ∷ 105 ∷ 110 ∷ 116 ∷ 50 ∷ 53 ∷ 54 ∷ 32 ∷ 116 ∷ 114 ∷ 97 ∷ 105 ∷ 116 ∷ 115
    ∷ 44 ∷ 98 ∷ 121 ∷ 116 ∷ 101 ∷ 115 ∷ 32 ∷ 100 ∷ 97 ∷ 116 ∷ 97 ∷ 41 ∷ []

abbrev pub demo_dollar : List ℕ
demo_dollar =
    79 ∷ 114 ∷ 98 ∷ 105 ∷ 116 ∷ 97 ∷ 108 ∷ 32 ∷ 68 ∷ 101 ∷ 109 ∷ 111 ∷ 32 ∷ 68 ∷ 111 ∷ 108 ∷ 108
    ∷ 97 ∷ 114 ∷ 32 ∷ []

-- The upstream wrapper of a deployment with its own Aqua.
abbrev pub of_aqua : Bool → ℕ → Addresses → List Expected
of_aqua false deployer a = []
of_aqua true deployer a =
    expect a.aqua aqua_owner (natural deployer)
    ∷ record { to = a.aqua; getter = aqua_multicall; outputs = [] }
    ∷ []

abbrev pub of_router : (List ℕ → ℕ) → (ℕ → ℕ → ℕ → ℕ) → ℕ → Addresses → List Expected
of_router keccak order_hash deployer a =
    expect a.router router_aqua (natural a.aqua)
    ∷ expect a.router router_weth (natural 0)
    ∷ expect a.router router_chain_id (natural arc_chain_id)
    ∷ expect a.router router_owner (natural 0)
    ∷ record {
      to = a.router;
      getter = router_domain;
      outputs =
          natural 15
          ∷ text orbital
          ∷ text (b'1' ∷ [])
          ∷ natural arc_chain_id
          ∷ natural a.router
          ∷ natural 0
          ∷ no_items
          ∷ [];
    }
    ∷ expect a.router router_order_typehash (natural (keccak order_type))
    ∷ expect a.router router_hash (natural (order_hash arc_chain_id a.router deployer))
    ∷ expect a.payments payments_usdc (natural arc_usdc)
    ∷ expect a.payments payments_router (natural a.router)
    ∷ []

abbrev pub of_mock : Token → List Expected
of_mock t =
    expect t.address demo_decimals (natural t.decimals)
    ∷ expect t.address demo_chain_id (natural arc_chain_id)
    ∷ expect t.address demo_name (text (demo_dollar ++ digits 78 t.decimals))
    ∷ expect t.address demo_symbol (text t.symbol)
    ∷ expect t.address demo_faucet_amount (natural (1000 * 10 ^ t.decimals))
    ∷ expect t.address demo_cooldown (natural 86400)
    ∷ []

abbrev pub of_token : Addresses → Token → List Expected
of_token a t =
    expect a.router (router_allowed_token t.address) (flag true)
    ∷ expect a.router (router_token_decimals t.address) (natural t.decimals)
    ∷ expect a.payments (payments_allowed_token t.address) (flag true)
    ∷ (if t.is_mock then of_mock t else [])

abbrev pub of_tokens : Addresses → List Token → List Expected
of_tokens a [] = []
of_tokens a (t ∷ ts) = of_token a t ++ of_tokens a ts

-- All that is read: a native token is not allowed.
abbrev pub expected_reads :
    (List ℕ → ℕ) → (ℕ → ℕ → ℕ → ℕ) → Bool → ℕ → Addresses → List Token → List Expected
expected_reads keccak order_hash self_deployed deployer a tokens =
    of_aqua self_deployed deployer a
    ++ (of_router keccak order_hash deployer a
        ++ (of_tokens a tokens
            ++ expect a.router (router_allowed_token 0) (flag false)
              ∷ expect a.payments (payments_allowed_token 0) (flag false)
              ∷ []))

-- `bindings`, which returns the hash of its block.
unfoldable pub bindings : Contracts → Network → ℕ → List Expected → Result Error (Option ℕ)
bindings contracts net clock reads = do
  block ← check_network net clock
  check_reads contracts clock reads
  asked ← or_fail (contracts.again clock) rpc_failed
  again ← or_fail asked not_a_number
  fail_if (not (same_option again block.hash)) block_orphaned
  ok block.hash
