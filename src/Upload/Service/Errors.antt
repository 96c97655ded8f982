-- ===== src/Upload/Service/Errors.antt =====
-- The errors of worker/upload-service.ts: status and code. Messages and details are not modelled.
use Prim.Native.Char.{code}
use ilist.Base.{
  ℕ, String, Bool, true, false, Option, none, some, List, [], ◌∷◌, ◌||◌, if◌then◌else◌, text_eq,
  ◌==◌, exists_in, ◌&&◌, ◌+◌, leb,
}
use ilist.Base.Exec.{Failure, failure, http_error, s3_error, rate_limited}

abbrev pub upload_part_invalid : Failure
upload_part_invalid = http_error 400 "UPLOAD_PART_INVALID"

abbrev pub upload_unsupported : Failure
upload_unsupported = http_error 400 "UPLOAD_SESSION_UNSUPPORTED"

abbrev pub upload_not_found : Failure
upload_not_found = http_error 404 "UPLOAD_SESSION_NOT_FOUND"

abbrev pub upload_expired : Failure
upload_expired = http_error 410 "UPLOAD_SESSION_EXPIRED"

abbrev pub upload_busy : Failure
upload_busy = http_error 409 "UPLOAD_PART_BUSY"

abbrev pub upload_already_completed : Failure
upload_already_completed = http_error 409 "UPLOAD_ALREADY_COMPLETED"

abbrev pub upload_state_persist_failed : Failure
upload_state_persist_failed = http_error 503 "UPLOAD_STATE_PERSIST_FAILED"

abbrev pub upload_provider_invalid : Failure
upload_provider_invalid = http_error 502 "UPLOAD_PROVIDER_INVALID"

abbrev pub upload_incomplete : Failure
upload_incomplete = http_error 409 "UPLOAD_INCOMPLETE"

-- `SAFE_PROVIDER_ERRORS`
unfoldable pub safe_provider_errors : List (String × ℕ)
safe_provider_errors =
    ("ONEDRIVE_AUTH_FAILED", 401)
    ∷ ("ONEDRIVE_ACCESS_DENIED", 403)
    ∷ ("ONEDRIVE_RATE_LIMITED", 503)
    ∷ ("ONEDRIVE_UPSTREAM_FAILED", 502)
    ∷ ("ONEDRIVE_UPLOAD_SESSION_NOT_FOUND", 404)
    ∷ ("ONEDRIVE_UPLOAD_SESSION_CONFLICT", 409)
    ∷ ("ONEDRIVE_UPLOAD_SESSION_INVALID_RANGE", 409)
    ∷ ("ONEDRIVE_UPLOAD_SESSION_RATE_LIMITED", 503)
    ∷ ("ONEDRIVE_UPLOAD_SESSION_FAILED", 502)
    ∷ ("ONEDRIVE_UPLOAD_SESSION_INVALID", 502)
    ∷ ("ONEDRIVE_UPLOAD_SESSION_PROOF_INVALID", 400)
    ∷ ("GOOGLE_AUTH_FAILED", 401)
    ∷ ("GOOGLE_ACCESS_DENIED", 403)
    ∷ ("GOOGLE_RATE_LIMITED", 503)
    ∷ ("GOOGLE_QUOTA_EXCEEDED", 503)
    ∷ ("GOOGLE_UPSTREAM_FAILED", 502)
    ∷ ("GOOGLE_UPLOAD_SESSION_EXPIRED", 410)
    ∷ ("GOOGLE_UPLOAD_SESSION_INVALID_RANGE", 409)
    ∷ ("GOOGLE_UPLOAD_SESSION_RATE_LIMITED", 503)
    ∷ ("GOOGLE_UPLOAD_SESSION_FAILED", 502)
    ∷ ("GOOGLE_UPLOAD_SESSION_INVALID", 502)
    ∷ ("DROPBOX_AUTH_FAILED", 401)
    ∷ ("DROPBOX_ACCESS_DENIED", 403)
    ∷ ("DROPBOX_RATE_LIMITED", 503)
    ∷ ("DROPBOX_UPSTREAM_FAILED", 502)
    ∷ ("DROPBOX_UPLOAD_SESSION_EXPIRED", 410)
    ∷ ("DROPBOX_UPLOAD_SESSION_INVALID_RANGE", 409)
    ∷ ("DROPBOX_UPLOAD_SESSION_INVALID", 502)
    ∷ ("STORAGE_ITEM_NOT_FOUND", 404)
    ∷ ("STORAGE_CONFLICT", 409)
    ∷ ("INVALID_ENTRY_NAME", 400)
    ∷ ("INVALID_UPLOAD_PART_SIZE", 400)
    ∷ ("INVALID_UPLOAD_CONTENT_TYPE", 400)
    ∷ ("UPLOAD_INCOMPLETE", 409)
    ∷ []

unfoldable pub safe_status : String → List (String × ℕ) → Option ℕ
safe_status code' [] = none
safe_status code' ((c, status) ∷ rest) =
    if text_eq c code' then some status else safe_status code' rest

-- `toLowerCase()`, on the letters A to Z: the code points
folded : String → List ℕ
folded String.[] = []
folded (String.◌∷◌ c s) =
    (if leb b'A' (code c) && leb (code c) b'Z' then code c + 32 else code c) ∷ folded s

same_codes : List ℕ → List ℕ → Bool
same_codes [] [] = true
same_codes (a ∷ as') (b ∷ bs) = a == b && same_codes as' bs
same_codes _ _ = false

among : String → List String → Bool
unfolding folded same_codes
among text codes = exists_in (λ c. same_codes (folded c) (folded text)) codes

unfoldable pub is_rate_limited : ℕ → String → Bool
unfolding among
is_rate_limited status text =
    status == 429
    || among text (
        "slowdown" ∷ "throttling" ∷ "throttlingexception" ∷ "toomanyrequests"
        ∷ "toomanyrequestsexception" ∷ [])

unfoldable pub is_retryable : ℕ → String → Bool
unfolding among
is_retryable status text =
    status == 408
    || status == 503
    || among text ("requesttimeout" ∷ "requesttimeoutexception" ∷ "serviceunavailable" ∷ [])

abbrev provider_failed : Failure
provider_failed = http_error 502 "UPLOAD_PROVIDER_FAILED"

abbrev safe_error : String → Option ℕ → Failure
safe_error text none = provider_failed
safe_error text (some status) = http_error status text

-- `normalizeProviderError`
unfoldable pub normalize_provider_error : Failure → Failure
unfolding is_rate_limited is_retryable safe_status safe_provider_errors
normalize_provider_error (s3_error status text) =
    if is_rate_limited status text
    then http_error 503 "UPLOAD_PROVIDER_RATE_LIMITED"
    else if is_retryable status text
    then http_error 503 "UPLOAD_PROVIDER_RETRYABLE"
    else provider_failed
normalize_provider_error (http_error status text) =
    safe_error text (safe_status text safe_provider_errors)
normalize_provider_error (failure message) = provider_failed
normalize_provider_error (rate_limited retry_after) = provider_failed
