-- ===== src/Tests/Instants.antt =====
-- Instants as text: a value in the middle of the range, and one that has 30 days in February.
use linkly.Base.{◌≡◌, arith}
use linkly.Base.Text.{Text, codes}
use linkly.Base.Int.{negsuc}
use linkly.Base.Result.{ok}
use linkly.Condition.Instant.{encode_instant, decode_instant}
use linkly.Condition.Instant.Bounds.{StaysNear, encode_instant-StaysNear}
use linkly.Condition.Instant.Decode.{encode_instant-decode_instant}

-- The last millisecond before the epoch.
encode_instant-decode_instant_example :
    (text : Text) × (decode_instant (negsuc 0) ≡ ok text) × (encode_instant text ≡ ok (negsuc 0))
encode_instant-decode_instant_example =
    encode_instant-decode_instant (negsuc 0) (omega arith, omega arith)

encode_instant-StaysNear_example : StaysNear (encode_instant (codes "2024-02-30T09:00:00.5+09:00"))
encode_instant-StaysNear_example = encode_instant-StaysNear (codes "2024-02-30T09:00:00.5+09:00")
