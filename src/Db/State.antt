-- ===== src/Db/State.antt =====
-- The tables, the statements that may fail, and the ways to run one.
use proxpass.Base.{ℕ, Bytes, Bool, Option, List, Result, ok, err, if◌then◌else◌, ◌≡◌, ◌↔◌, Any}
use proxpass.Models.{
  ProxmoxInstance, Guest, Client, Group, RuleType, RuleRow, DefaultAccessPolicy, SessionIdentity,
  ActivityEvent,
}

-- A row of session_tokens or api_sessions.
pub record TokenRow : Type 0 where
  pub token_hash : Bytes
  pub identity : SessionIdentity
  pub expires_at : ℕ

-- A row of settings.
pub record Setting : Type 0 where
  pub key : Bytes
  pub value : Bytes

-- `unique_urls` is whether the schema has UNIQUE(api_url), which PostgreSQL's has and SQLite's, since
-- its migration 00007, has not. `next_guest_id`, `next_rule_id` and the like are AUTOINCREMENT counters.
pub record Tables : Type 0 where
  pub unique_urls : Bool
  pub instances : List ProxmoxInstance
  pub guests : List Guest
  pub clients : List Client
  pub groups : List Group
  pub access_rules : List RuleRow
  pub instance_access_rules : List RuleRow
  pub default_policy : Option DefaultAccessPolicy
  pub session_tokens : List TokenRow
  pub api_sessions : List TokenRow
  pub settings : List Setting
  pub admin_keys : List Bytes
  pub activity_log : List ActivityEvent
  pub next_instance_id : ℕ
  pub next_event_id : ℕ
  pub next_guest_id : ℕ
  pub next_client_id : ℕ
  pub next_group_id : ℕ
  pub next_rule_id : ℕ
  pub next_instance_rule_id : ℕ

-- `no_rows` is sql.ErrNoRows, `unique_violation` the driver's own report of a duplicate key,
-- `already_exists` the repository's report of one, and `storage` any other failure of the database.
pub data DbError : Type 0 where
  storage no_rows no_such_token unique_violation already_exists : DbError

-- The statements of the modelled operations, with the arguments they are run with.
pub data Statement : Type 0 where
  begin commit : Statement
  select_rule select_instance_rule : RuleType → ℕ → ℕ → Statement
  select_client_groups : ℕ → Statement
  select_groups select_policy : Statement
  select_guest : ℕ → ℕ → Statement
  insert_guest update_guest : ℕ → Statement
  select_guests : ℕ → Statement
  delete_guest_rules delete_guest : ℕ → Statement
  delete_instance_guests delete_instance_rules delete_instance : ℕ → Statement
  prepare : Statement
  insert_rule delete_rule insert_instance_rule delete_instance_rule : RuleType → ℕ → ℕ → Statement
  select_all_guests select_instances select_clients : Statement
  select_client_by_name : Bytes → Statement
  insert_client insert_group update_client_row update_group_row : Bytes → Statement
  delete_client delete_group : ℕ → Statement
  store_setting read_setting : Bytes → Statement
  insert_admin_key delete_admin_key : Bytes → Statement
  select_admin_keys : Statement
  select_guest_by_id : ℕ → Statement
  sweep_tokens insert_token redeem_token sweep_sessions insert_session : Statement
  select_session delete_session : Statement
  insert_instance update_instance : Bytes → Statement
  store_policy : Statement
  select_rules select_instance_rules : Statement
  insert_event : Bytes → Statement
  delete_events : ℕ → Statement

-- Runs a statement whose answer is `a`.
unfoldable pub run {ℓ} : {A : Type ℓ} → (Statement → Bool) → Statement → A → Result DbError A
run down st a = if down st then err storage else ok a

-- The order in which Go's `range` visits the keys of a map: some arrangement of them.
pub record MapOrder : Type 0 where
  pub order : List ℕ → List ℕ
  pub order_iff : (x : ℕ) (xs : List ℕ) → Any (λ y. y ≡ x) (order xs) ↔ Any (λ y. y ≡ x) xs

-- A transaction: the work's new tables if it succeeds, and the old ones if anything fails.
unfoldable pub transact {ℓ} :
    {A : Type ℓ} → Tables → Result DbError (A × Tables) → Result DbError A × Tables
transact db (ok (a, db')) = (ok a, db')
transact db (err e) = (err e, db)
