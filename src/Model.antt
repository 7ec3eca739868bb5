-- ===== src/Model.antt =====
-- The rows of the database tables (backend/app/models), the errors (backend/app/core) and the
-- state that the services share: the tables, the stored blobs and the activity log.
use cloud_drive.Prelude.{ℕ, Text, Option, List, Bool, true, false}

-- Ids, instants (seconds since the epoch) and hashes are numbers; each only stands for itself.
abbrev pub Uuid : Type 0
Uuid = ℕ

abbrev pub Time : Type 0
Time = ℕ

pub data ErrorCode : Type 0 where
  email_already_exists invalid_credentials unauthorized refresh_token_revoked : ErrorCode
  user_inactive forbidden not_found quota_exceeded file_too_large : ErrorCode
  validation_error name_conflict invalid_operation item_content_not_found : ErrorCode
  share_link_invalid share_link_password_required assistant_unavailable : ErrorCode
  internal_error : ErrorCode

-- What a service raises: an `AppError` with its code and HTTP status; `MultipleResultsFound` and
-- `NoResultFound` of the database layer, its foreign keys, its unique indexes and the lengths of its columns;
-- a failed `assert`; a blob that storage does not have.
-- `index_error`, `type_error` and `resolution_error` are IndexError, TypeError and StepResolutionError.
-- `diverges` marks a loop that does not end.
pub data Error : Type 0 where
  app_error : ErrorCode → ℕ → Error
  multiple_results no_result assertion_failed key_not_found : Error
  foreign_key_violation unique_violation data_error diverges : Error
  index_error type_error resolution_error : Error

abbrev pub not_found_error : Error
not_found_error = app_error ErrorCode.not_found 404

abbrev pub forbidden_error : Error
forbidden_error = app_error ErrorCode.forbidden 403

abbrev pub name_conflict_error : Error
name_conflict_error = app_error ErrorCode.name_conflict 409

abbrev pub quota_exceeded_error : Error
quota_exceeded_error = app_error ErrorCode.quota_exceeded 413

abbrev pub file_too_large_error : Error
file_too_large_error = app_error ErrorCode.file_too_large 413

-- `AppError(ErrorCode.INVALID_OPERATION, ...)`, whose status is 400
abbrev pub bad_operation : Error
bad_operation = app_error ErrorCode.invalid_operation 400

-- `InvalidOperationError`
abbrev pub invalid_operation_error : Error
invalid_operation_error = app_error ErrorCode.invalid_operation 422

pub data ItemType : Type 0 where
  file folder : ItemType

abbrev pub is_folder : ItemType → Bool
is_folder ItemType.file = false
is_folder ItemType.folder = true

-- The text of a storage key is read through its fields, which it shows:
-- `users/{user}/files/{uuid}/v{version}` and `uploads/{user}/{session}/{index}`.
pub data StorageKey : Type 0 where
  file_key : Uuid → Uuid → ℕ → StorageKey
  chunk_key : Uuid → Uuid → ℕ → StorageKey

pub record DriveItem : Type 0 where
  pub id : Uuid
  pub owner_id : Uuid
  pub parent_id : Option Uuid
  pub item_type : ItemType
  pub name : Text
  pub mime_type : Option Text
  pub extension : Option Text
  pub size_bytes : ℕ
  pub storage_key : Option StorageKey
  pub checksum_sha256 : Option ℕ
  pub is_starred : Bool
  pub is_deleted : Bool
  pub deleted_at : Option Time
  pub created_by : Uuid
  pub updated_by : Option Uuid
  pub created_at : Time
  pub updated_at : Time

pub record Preference : Type 0 where
  pub user_id : Uuid
  pub item_id : Uuid
  pub is_starred : Bool
  pub updated_at : Time

-- `Share.permission` is a column of text that holds a `Permission` value.
pub data Permission : Type 0 where
  viewer downloader editor owner : Permission

pub record Share : Type 0 where
  pub id : Uuid
  pub item_id : Uuid
  pub owner_id : Uuid
  pub target_user_id : Uuid
  pub permission : Permission
  pub created_at : Time
  pub updated_at : Time

pub data LinkPermission : Type 0 where
  viewer downloader editor : LinkPermission

pub record ShareLink : Type 0 where
  pub id : Uuid
  pub item_id : Uuid
  pub token_hash : ℕ
  pub permission : LinkPermission
  pub password_hash : Option ℕ
  pub expires_at : Option Time
  pub is_active : Bool
  pub created_by : Uuid
  pub created_at : Time
  pub attempt_window_start : Option Time
  pub attempt_count : ℕ
  pub locked_until : Option Time

pub record FileVersion : Type 0 where
  pub id : Uuid
  pub file_id : Uuid
  pub version_no : ℕ
  pub storage_key : StorageKey
  pub size_bytes : ℕ
  pub checksum_sha256 : Option ℕ
  pub created_by : Uuid

pub record User : Type 0 where
  pub id : Uuid
  pub email : Text
  pub username : Text
  pub password_hash : ℕ
  pub quota_bytes : ℕ
  pub used_bytes : ℕ
  pub is_active : Bool
  pub is_admin : Bool
  pub must_change_password : Bool
  pub created_at : Time
  pub updated_at : Time

pub record RefreshToken : Type 0 where
  pub id : Uuid
  pub user_id : Uuid
  pub token_hash : ℕ
  pub expires_at : Time
  pub revoked_at : Option Time
  pub created_at : Time

pub data UploadStatus : Type 0 where
  pending uploading completed failed cancelled : UploadStatus

pub record UploadSession : Type 0 where
  pub id : Uuid
  pub user_id : Uuid
  pub parent_id : Option Uuid
  pub filename : Text
  pub mime_type : Option Text
  pub total_size : ℕ
  pub chunk_size : ℕ
  pub total_chunks : ℕ
  pub status : UploadStatus
  pub checksum_sha256 : Option ℕ
  pub drive_item_id : Option Uuid
  pub error_code : Option ErrorCode
  pub created_at : Time
  pub updated_at : Time
  pub expires_at : Time

pub record UploadChunk : Type 0 where
  pub session_id : Uuid
  pub chunk_index : ℕ
  pub size : ℕ
  pub checksum_sha256 : Option ℕ
  pub storage_key : StorageKey
  pub created_at : Time

pub data Trigger : Type 0 where
  scheduled manual assistant pre_restore : Trigger

pub record Snapshot : Type 0 where
  pub id : Uuid
  pub user_id : Uuid
  pub trigger : Trigger
  pub label : Text
  pub item_count : ℕ
  pub total_bytes : ℕ
  pub pinned : Bool
  pub created_at : Time

pub record SnapshotEntry : Type 0 where
  pub snapshot_id : Uuid
  pub item_id : Uuid
  pub parent_item_id : Option Uuid
  pub name : Text
  pub item_type : ItemType
  pub storage_key : Option StorageKey
  pub checksum_sha256 : Option ℕ
  pub size_bytes : ℕ

pub record SnapshotSettings : Type 0 where
  pub user_id : Uuid
  pub retention_n : ℕ
  pub schedule_enabled : Bool
  pub schedule_interval_minutes : ℕ
  pub quota_bytes : Option ℕ

-- A stored object: its bytes, and when it was written.
pub record Blob : Type 0 where
  pub key : StorageKey
  pub bytes : List ℕ
  pub modified_at : Time

pub data Action : Type 0 where
  create upload rename move star trash restore permanent_delete share unshare : Action
  snapshot_restore : Action

pub record Activity : Type 0 where
  pub actor_id : Uuid
  pub action : Action
  pub item_id : Option Uuid

-- `lower` is the function of that name of the database, which depends on its collation.
pub record Db : Type 0 where
  pub lower : Text → Text
  pub items : List DriveItem
  pub prefs : List Preference
  pub shares : List Share
  pub links : List ShareLink
  pub versions : List FileVersion
  pub users : List User
  pub tokens : List RefreshToken
  pub sessions : List UploadSession
  pub chunks : List UploadChunk
  pub snapshots : List Snapshot
  pub entries : List SnapshotEntry
  pub settings : List SnapshotSettings
  pub blobs : List Blob
  pub activity : List Activity
