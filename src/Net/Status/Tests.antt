-- ===== src/Net/Status/Tests.antt =====
-- Statuses of net/status.cc with a short message.
use jnet.Base.{◌≡◌, none, some, [], ◌∷◌, arith, ◌==◌}
use jnet.Net.Status.{of_message, from_format, code, ok, msg, clone}
use jnet.Net.Status.Packing.{msg-from_format, msg-of_message}

msg-from_format-test :
    (code (from_format 2 (65 ∷ 66 ∷ [])) ≡ some 2)
    × (ok (from_format 2 (65 ∷ 66 ∷ [])) ≡ some (2 == 0))
    × (msg (from_format 2 (65 ∷ 66 ∷ [])) ≡ some (65 ∷ 66 ∷ []))
    × (clone (from_format 2 (65 ∷ 66 ∷ [])) ≡ some (from_format 2 (65 ∷ 66 ∷ [])))
msg-from_format-test = msg-from_format 2 (65 ∷ 66 ∷ []) (omega arith) (omega arith) (cc, (cc, tt))

msg-of_message-test :
    (code (of_message 2 (65 ∷ 66 ∷ [])) ≡ some 2)
    × (msg (of_message 2 (65 ∷ 66 ∷ [])) ≡ none)
    × (clone (of_message 2 (65 ∷ 66 ∷ [])) ≡ some (of_message 2 (65 ∷ 66 ∷ [])))
msg-of_message-test = msg-of_message 2 (65 ∷ 66 ∷ []) (omega arith) (omega arith) (cc, (cc, tt))
