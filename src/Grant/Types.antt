-- ===== src/Grant/Types.antt =====
-- The values of grant.rs: operations, scopes, grants, key sets and errors; object.rs: `ObjectKind`.
use distr_hnsw.Common.{ℕ, Option, none, some, List, ◌==◌, if◌then◌else◌, String}
use distr_hnsw.Common.Int.{ℤ}

-- A byte string of a fixed length: key ids, hashes, nonces and UUIDs.
abbrev pub Bytes : Type 0
Bytes = List ℕ

pub data ObjectKind : Type 0 where
  chunk manifest deletion_marker : ObjectKind

pub data Operation : Type 0 where
  health inventory get put delete : Operation

-- An object's hash is its text.
pub data Scope : Type 0 where
  agent : Scope
  kind : ObjectKind → Scope
  object : ObjectKind → Bytes → Scope

pub record Grant : Type 0 where
  pub key_id : Bytes
  pub epoch : ℕ
  pub agent_id : Bytes
  pub operation : Operation
  pub scope : Scope
  pub gc_proof : Option Bytes
  pub issued_at : ℤ
  pub expires_at : ℤ
  pub nonce : Bytes

pub data GrantError : Type 0 where
  missing bad_signature wrong_operation wrong_object : GrantError
  delete_without_proof expired not_yet_valid lifetime_too_long : GrantError
  malformed : String → GrantError
  unknown_key wrong_agent : Bytes → GrantError
  stale_epoch newer_epoch : ℕ → ℕ → GrantError

abbrev pub grant_version : ℕ
grant_version = 1

abbrev pub max_grant_lifetime_seconds : ℕ
max_grant_lifetime_seconds = 300

abbrev pub grant_lifetime_seconds : ℕ
grant_lifetime_seconds = 120

abbrev pub clock_skew_seconds : ℕ
clock_skew_seconds = 60

abbrev pub max_agent_id_bytes : ℕ
max_agent_id_bytes = 255

abbrev pub max_keys : ℕ
max_keys = 16

-- `Operation::code`
abbrev pub code : Operation → ℕ
code health = 1
code inventory = 2
code get = 3
code put = 4
code delete = 5

unfoldable pub from_code : ℕ → Option Operation
from_code c =
    if c == 1
    then some health
    else if c == 2
    then some inventory
    else if c == 3
    then some get
    else if c == 4
    then some put
    else if c == 5
    then some delete
    else none

abbrev pub kind_code : ObjectKind → ℕ
kind_code chunk = 1
kind_code manifest = 2
kind_code deletion_marker = 3

unfoldable pub kind_from : ℕ → Option ObjectKind
kind_from c =
    if c == 1
    then some chunk
    else if c == 2
    then some manifest
    else if c == 3
    then some deletion_marker
    else none
