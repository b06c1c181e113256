-- ===== src/Fsops/Tests.antt =====
-- Directories at concrete inputs.
use byssus.Base.{ℕ, ◌≡◌, refl, Bool, true, false, ok, err, text, if◌then◌else◌}
use byssus.Base.Exec.{Exec}
use byssus.System.Toy.{toy}
use byssus.Name.{from_bytes, is_allowed_byte}
use byssus.Name.Allowed.{IsName, from_bytes_iff}
use byssus.Fsops.{retry_eagain, is_plain, eagain_retries}
use byssus.Fsops.Retry.{IsRetried, retry_eagain-IsRetried}
use byssus.Fsops.Plain.{name-is_plain}

-- A call that says `EAGAIN` once.
abbrev busy_once : Exec Bool ℕ ℕ
busy_once here = if here then (err 11, false) else (ok 4, here)

retry_busy_once : retry_eagain toy eagain_retries busy_once true ≡ (ok 4, false)
unfolding retry_eagain
retry_busy_once = refl

retry_eagain-IsRetried_example :
    IsRetried toy busy_once eagain_retries true (retry_eagain toy eagain_retries busy_once true)
retry_eagain-IsRetried_example = retry_eagain-IsRetried toy busy_once eagain_retries true

zlib-accepted : from_bytes (text "zlib") ≡ ok (record { str = text "zlib" })
unfolding from_bytes is_allowed_byte
zlib-accepted = refl

zlib-IsName : IsName (text "zlib")
zlib-IsName = ((from_bytes_iff (text "zlib") (record { str = text "zlib" })).0 zlib-accepted).0

name-is_plain_example : is_plain (text "zlib") ≡ true
name-is_plain_example = name-is_plain (text "zlib") zlib-IsName
