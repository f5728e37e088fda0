-- ===== src/Tests/Bms.antt =====
-- The JK protocol, the handler and the scan coordinator at concrete inputs.
use bms_bridge.Base.{
  ℕ, zero, suc, ◌<◌, ◌≡◌, ◌≢◌, refl, List, [], ◌∷◌, ◌++◌, Bytes, All, All-append, replicate, take,
  arith,
}
use bms_bridge.Jk.Wire.{byte_at, response_magic, jk_crc8, crc_sum}
use bms_bridge.Jk.Assembler.{JkFrameAssembler, push_chunk, reset}
use bms_bridge.Jk.Assembler.Delivery.{IsResponse, push_all, push_all-response, push_chunk-hidden}
use bms_bridge.Jk.Driver.{feed}
use bms_bridge.Jk.Driver.Feeding.{Told, feed-Told}
use bms_bridge.Ble.ScanCoordinator.{Waiter, Coordinator, idle, request}

-- A cell information response of a pack with nothing to tell.
abbrev body : Bytes
body = 0xAA ∷ 0xEB ∷ 0x90 ∷ 2 ∷ (replicate 294 0 ++ 124 ∷ [])

abbrev pub response : Bytes
response = 0x55 ∷ body

response-magic : (i : ℕ) → i < 4 → byte_at response i ≡ byte_at response_magic i
response-magic zero h = refl
response-magic (suc zero) h = refl
response-magic (suc (suc zero)) h = refl
response-magic (suc (suc (suc zero))) h = refl
response-magic (suc (suc (suc (suc i)))) h = absurd (omega arith)

response-checksum : jk_crc8 (take 299 response) ≡ byte_at response 299
unfolding jk_crc8 crc_sum
response-checksum = refl

pub response-IsResponse : IsResponse response
response-IsResponse = record { size = refl; magic = response-magic; checksum = response-checksum }

zeros-no_start : (n : ℕ) → All (λ (b : ℕ). b ≢ 0x55) (replicate n 0)
zeros-no_start zero = tt
zeros-no_start (suc n) = (omega arith, zeros-no_start n)

body-no_start : All (λ (b : ℕ). b ≢ 0x55) body
body-no_start = (
  omega arith,
  (
    omega arith,
    (
      omega arith,
      (
        omega arith,
        All-append (λ (b : ℕ). b ≢ 0x55) (replicate 294 0) (124 ∷ []) (zeros-no_start 294)
            (omega arith, tt),
      ),
    ),
  ),
)

push_all-response_example :
    push_all ((0x41 ∷ 0x55 ∷ []) ∷ body ∷ []) (record { buf = []; ready = [] })
    ≡ record { buf = []; ready = response }
push_all-response_example =
    push_all-response (0x41 ∷ []) response [] ((0x41 ∷ 0x55 ∷ []) ∷ body ∷ []) (omega arith, tt)
      response-IsResponse refl

push_chunk-hidden_example :
    push_chunk (0x55 ∷ response) (record { buf = []; ready = [] }) ≡ record { buf = []; ready = [] }
push_chunk-hidden_example = push_chunk-hidden body [] body-no_start response-IsResponse

abbrev fresh : JkFrameAssembler
fresh = reset (record { buf = []; ready = [] })

feed-Told_example :
    ((feed (record { buf = []; ready = [] }) (0x41 ∷ response)).0 ≡ record { buf = []; ready = [] })
    × Told response (feed (record { buf = []; ready = [] }) (0x41 ∷ response)).1
feed-Told_example = feed-Told (0x41 ∷ []) response (omega arith, tt) response-IsResponse

abbrev three_owners : Coordinator ℕ
three_owners = (request 3 30 (request 2 20 (request 1 10 idle).0).0).0

abbrev waiting : List (Waiter ℕ)
waiting = record { owner = 2; cb = 20 } ∷ record { owner = 3; cb = 30 } ∷ []
