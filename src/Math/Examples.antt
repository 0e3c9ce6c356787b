-- ===== src/Math/Examples.antt =====
-- The theorems on the pure helpers at concrete amounts.
use vortex_contracts.Base.{◌≡◌, refl, some, arith}
use vortex_contracts.Base.Int.{pos, negsuc, ◌-ℤ◌, ◌+ℤ◌, ◌*ℤ◌}
use vortex_contracts.Math.Formulas.{dutch_decay, decayed}
use vortex_contracts.Math.Decode.{decode_payload_chain_id, decode_payload_src_amount}
use vortex_contracts.Math.Encode.{be_bytes, payload, length-be_bytes, payload-decodes}

price_in_the_middle :
    dutch_decay 130 (some (pos 1_000)) (pos 400) (some 100) (some 200) ≡ some (pos 820)
unfolding dutch_decay decayed ◌*ℤ◌ ◌-ℤ◌ ◌+ℤ◌
price_in_the_middle = refl

payload-decodes_example :
    (decode_payload_chain_id (payload (be_bytes 52 1) 1 (be_bytes 32 5) (negsuc 41)) ≡ some 1)
    × (decode_payload_src_amount (payload (be_bytes 52 1) 1 (be_bytes 32 5) (negsuc 41))
        ≡ some (negsuc 41))
payload-decodes_example =
    payload-decodes (be_bytes 52 1) (be_bytes 32 5) 1 (negsuc 41) (length-be_bytes 52 1)
      (length-be_bytes 32 5) (omega arith) (omega arith) (omega arith)
