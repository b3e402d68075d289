-- ===== src/Users/Bulk.antt =====
-- frontend/src/components/UserManagement.tsx, `handleBulkCreate`. What `uuidv4()` and the random
-- suffix give in a round are functions of its number.
pub mod Laws
use ogs_swg.Prelude.{
  ℕ, zero, suc, ◌+◌, String, List, [], ◌∷◌, Option, none, some, Bool, false, length, str_eq, concat,
  if◌then◌else◌,
}
use ogs_swg.Prelude.Int.{ℤ, pos, negsuc, pos_part, neg_part, sub_ℕ}
use ogs_swg.Wire.{CreateUserRequest, Inbound}
use ogs_swg.Runtime.{M, ◌>>◌, update, notify, error, success, show_exception, try_catch}
use ogs_swg.Encoding.Decimal.{decimal}
use ogs_swg.Api.Users.{bulk_create_users}
use ogs_swg.Users.{
  Page, BulkConfig, BulkMode, sequential, random, closed, get_inbound_type, fetch_users,
}

-- The random choices of the rounds.
pub record Random : Type 0 where
  pub uuid : ℕ → String
  pub suffix : ℕ → String

-- A number in a template literal, and the sum of the first index and the number of a round.
abbrev pub number_text : Option ℤ → String
number_text none = "NaN"
number_text (some (pos n)) = decimal n
number_text (some (negsuc n)) = concat ("-" ∷ decimal (suc n) ∷ [])

abbrev pub plus : Option ℤ → ℕ → Option ℤ
plus none i = none
plus (some z) i = some (sub_ℕ (pos_part z + i) (neg_part z))

-- How often `for (let i = 0; i < count; i++)` goes round; no number is less than `NaN`.
abbrev pub rounds : Option ℤ → ℕ
rounds none = 0
rounds (some z) = pos_part z

abbrev pub username : Random → BulkConfig → ℕ → BulkMode → String
username rnd cfg i sequential =
    concat (cfg.prefix ∷ "-" ∷ number_text (plus cfg.start_index i) ∷ [])
username rnd cfg i random = concat (cfg.prefix ∷ "-" ∷ rnd.suffix i ∷ [])

-- `bulkInboundType === type`
abbrev pub is_type : Option String → String → Bool
is_type none type = false
is_type (some t) type = str_eq t type

unfoldable pub bulk_user : Random → BulkConfig → Option String → ℕ → CreateUserRequest
bulk_user rnd cfg type i = record {
  name = concat (username rnd cfg i cfg.mode ∷ cfg.suffix ∷ []);
  original_name = none;
  uuid = rnd.uuid i;
  flow = if is_type type "vless" then cfg.flow else "";
  vmess_security = some (if is_type type "vmess" then "auto" else "");
  vmess_alter_id = some 0;
  quota_limit = cfg.quota_limit;
  quota_period = cfg.quota_period;
  reset_day = cfg.reset_day;
  enabled = none;
  inbound_tag = some cfg.inbound_tag;
}

-- The rounds from `i` on, with the number of those left.
unfoldable pub bulk_from : Random → BulkConfig → Option String → ℕ → ℕ → List CreateUserRequest
unfolding bulk_user
bulk_from rnd cfg type zero i = []
bulk_from rnd cfg type (suc left) i = bulk_user rnd cfg type i ∷ bulk_from rnd cfg type left (suc i)

unfoldable pub users_to_create : Random → Page → List CreateUserRequest
users_to_create rnd s =
    bulk_from rnd s.bulk_config (get_inbound_type s.inbounds s.bulk_config.inbound_tag)
      (rounds s.bulk_config.count) 0

unfoldable pub handle_bulk_create : Random → Page → M Page (Unit {0})
handle_bulk_create rnd s =
    try_catch
      (do
        bulk_create_users (users_to_create rnd s)
        notify (
            success (
              concat (
                "Bulk created "
                ∷ decimal (length (users_to_create rnd s))
                ∷ " users successfully"
                ∷ [])))
        update (λ p. record p { modal = closed })
        fetch_users)
      (λ err. notify (error (concat ("Failed to bulk create: " ∷ show_exception err ∷ []))))
