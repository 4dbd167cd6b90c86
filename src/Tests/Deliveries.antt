-- ===== src/Tests/Deliveries.antt =====
-- A message to the running attempt of Tests/Fleet.antt, and its deliveries (internal/store/store.go).
use secondhand.Base.{◌≡◌, refl, List, [], ◌∷◌, some, nat_eq, string_eq, ok, err, arith}
use secondhand.Store.Types.{SendAttempt, submitted, not_submitted, operator, usage_limit_resume}
use secondhand.Store.Table.{get, modify}
use secondhand.Store.Tables.{
  Tables, empty_tables, send_id_of, Engine, transact, invalid_send_transition,
}
use secondhand.Store.Facts.{no_herdr}
use secondhand.Store.Sends.{
  new_send, finalized, begin_send, finalize_send, insert_send, send_fits, update_send, transact_if,
  matches, latest_send,
}
use secondhand.Store.Sends.Keeping.{IsDelivering}
use secondhand.Store.Sends.Answers.{finalize_send-again}
use secondhand.Store.Sends.Reading.{
  SendCommand, begin_with, finalize_with, deliver_all, deliver_all-IsDelivering, deliver_all-final,
  latest_send-Newest, Newest,
}
use secondhand.Tests.Fleet.{works, running_attempt, owning_task}

abbrev pub fleet : Tables
fleet = record empty_tables {
  tasks = owning_task ∷ [];
  attempts = running_attempt ∷ [];
  attempt_seq = 1;
}

pub fleet-IsDelivering : IsDelivering fleet
unfolding get
fleet-IsDelivering = record { keyed = tt; one = λ m n x y e. ground arith }

abbrev pub first_send : SendAttempt
first_send = record (new_send "fix-typo" 1 operator "rebase" "10:00" 0) { id = 1 }

abbrev sent : Tables
sent = record fleet { sends = finalized submitted "" "10:01" first_send ∷ []; send_seq = 1 }

sent-IsDelivering : IsDelivering sent
unfolding get
sent-IsDelivering = record { keyed = (refl, tt); one = λ m n x y e₁ e₂ p q same. ground arith }

-- Two messages begun at once, of which the second is refused.
abbrev two_begun : List (Engine × SendCommand)
two_begun =
    (works, begin_with "fix-typo" 1 no_herdr operator "rebase" "10:00" 0)
    ∷ (works, begin_with "fix-typo" 1 no_herdr usage_limit_resume "continue" "10:00" 0)
    ∷ (works, finalize_with 1 "fix-typo" 1 submitted "" "10:01")
    ∷ []

deliver_all-two_begun : deliver_all two_begun fleet ≡ sent
unfolding deliver_all begin_send finalize_send insert_send send_fits update_send transact_if
    transact get modify
deliver_all-two_begun = refl

deliver_all-IsDelivering_example : IsDelivering (deliver_all two_begun fleet)
deliver_all-IsDelivering_example = deliver_all-IsDelivering two_begun fleet fleet-IsDelivering

in_table : get send_id_of 1 sent.sends ≡ some (finalized submitted "" "10:01" first_send)
unfolding get
in_table = refl

deliver_all-final_example :
    get send_id_of 1 (deliver_all two_begun sent).sends
    ≡ some (finalized submitted "" "10:01" first_send)
deliver_all-final_example =
    deliver_all-final two_begun sent 1 (finalized submitted "" "10:01" first_send) sent-IsDelivering
      in_table refl

abbrev pub begun_fleet : Tables
begun_fleet = record fleet { sends = first_send ∷ []; send_seq = 1 }

answer :
    (finalize_send works 1 "fix-typo" 1 submitted "" "10:01" begun_fleet).0
    ≡ ok (finalized submitted "" "10:01" first_send)
unfolding finalize_send transact_if update_send get modify
answer = refl

finalize_send-again_example :
    finalize_send works 1 "fix-typo" 1 not_submitted "" "10:02"
      (finalize_send works 1 "fix-typo" 1 submitted "" "10:01" begun_fleet).1
    ≡ (
      err invalid_send_transition,
      (finalize_send works 1 "fix-typo" 1 submitted "" "10:01" begun_fleet).1,
    )
finalize_send-again_example =
    finalize_send-again works works 1 "fix-typo" 1 submitted not_submitted "" "10:01" "" "10:02"
      begun_fleet (finalized submitted "" "10:01" first_send) answer refl refl

latest_send-Newest_example :
    Newest
      (matches "fix-typo" 1 (operator ∷ []))
      sent.sends
      (latest_send "fix-typo" 1 (operator ∷ []) sent)
latest_send-Newest_example =
    latest_send-Newest "fix-typo" 1 (operator ∷ []) sent sent-IsDelivering.keyed
