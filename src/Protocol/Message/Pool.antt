-- ===== src/Protocol/Message/Pool.antt =====
-- The message pool of protocol/pool.go with Reset of protocol/message.go.
use frpc.Base.{ℕ, zero, suc, ◌≡◌, refl, ap, ◌∙◌, true, false, List, [], ◌∷◌, ==_iff}
use frpc.Protocol.Header.{magic_number, check_magic_number}
use frpc.Protocol.Message.{Message, new_message, reset, free_msg, get_msgs}
use frpc.Base.Bytes.{copy_at}

abbrev pub AllFresh : List Message → Type 0
AllFresh [] = Unit {0}
AllFresh (m ∷ pool) = (m ≡ new_message) × AllFresh pool

-- Reset clears everything but the first byte of the header.
reset-new_message :
    (m : Message)
    → reset m ≡ record new_message { header = record (new_message.header) { h0 = m.header.h0 } }
unfolding reset new_message copy_at
reset-new_message m = refl

reset_fresh : (m : Message) → check_magic_number m.header ≡ true → reset m ≡ new_message
unfolding check_magic_number
reset_fresh m h =
    reset-new_message m
    ∙ unfold new_message in
      ap (λ n. record new_message { header = record (new_message.header) { h0 = n } })
        ((==_iff m.header.h0 magic_number).0 h)

-- A pool into which only messages with the right magic number are freed gives messages like those of
-- NewMessage, and stays such a pool.
get_msgs-AllFresh :
    (pick : ℕ) (pool : List Message)
    → AllFresh pool
    → ((get_msgs pick pool).0 ≡ new_message) × AllFresh (get_msgs pick pool).1
unfolding get_msgs
get_msgs-AllFresh zero [] h = (refl, tt)
get_msgs-AllFresh (suc pick) [] h = (refl, tt)
get_msgs-AllFresh zero (m ∷ pool) h = h
get_msgs-AllFresh (suc pick) (m ∷ pool) h =
    let (got, rest) = get_msgs-AllFresh pick pool h.1 in (got, (h.0, rest))

-- A pool to which a message with the right magic number is freed gives only messages like those of
-- NewMessage, whichever one it picks, and stays such a pool. Conditions: the pool was one, and the
-- freed message has the right magic number.
pub get_msgs-free_msg :
    (pick : ℕ) (m : Message) (pool : List Message)
    → check_magic_number m.header ≡ true
    → AllFresh pool
    → ((get_msgs pick (free_msg m pool)).0 ≡ new_message)
      × AllFresh (get_msgs pick (free_msg m pool)).1
unfolding free_msg
get_msgs-free_msg pick m pool h fresh =
    get_msgs-AllFresh pick (reset m ∷ pool) (reset_fresh m h, fresh)

-- A message that came with another magic number goes through Reset and the pool and comes out of
-- it with the wrong magic number.
free_msg_wrong_magic :
    (m : Message) (pool : List Message)
    → check_magic_number m.header ≡ false
    → check_magic_number (get_msgs 0 (free_msg m pool)).0.header ≡ false
unfolding free_msg get_msgs copy_at check_magic_number
free_msg_wrong_magic m pool h = h
