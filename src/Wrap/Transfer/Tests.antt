-- ===== src/Wrap/Transfer/Tests.antt =====
-- Calls of `Readn` and `Writen` of LinuxC/socket/TCP/wrap.c at small inputs.
use linux_note.Base.{ℕ, ◌≤◌, ◌≡◌, refl, some, List, [], ◌∷◌, ◌++◌, arith, length}
use linux_note.Wrap.{eintr, Reply, got, fail, Answer, val, err, returns}
use linux_note.Wrap.Transfer.{readn_loop, readn, writen_loop, writen}
use linux_note.Wrap.Transfer.Replies.{data_of}
use linux_note.Wrap.Transfer.Readn.{Verdict, readn_sound, readn_full}
use linux_note.Wrap.Transfer.Writen.{Sent, writen_sound, writen_full, readn-writen}

-- Three bytes in two pieces, with an interruption, and one more piece that is not asked for.
abbrev replies : List Reply
replies = got (1 ∷ 2 ∷ []) ∷ fail eintr ∷ got (3 ∷ []) ∷ []

abbrev answers : List Answer
answers = val 1 ∷ err eintr ∷ val 2 ∷ []

abbrev sent : List ℕ
sent = 1 ∷ 2 ∷ 3 ∷ []

readn_run : readn 3 replies ≡ returns (some 3, sent) []
unfolding readn readn_loop
readn_run = refl

writen_run : writen sent 3 answers ≡ returns (some 3, sent) []
unfolding writen writen_loop
writen_run = refl

readn_sound_example :
    (sent ++ data_of [] ≡ data_of replies) × (length sent ≤ 3) × Verdict 3 sent replies (some 3)
readn_sound_example =
    readn_sound 3 replies (some 3) sent [] (omega arith) (omega arith, (omega arith, tt)) readn_run

readn_full_example : (rest : List Reply) × (readn 3 replies ≡ returns (some 3, sent) rest)
readn_full_example =
    readn_full 3 replies (omega arith) (omega arith, (omega arith, tt)) (omega arith) refl refl

writen_sound_example : (unsent : List ℕ) × (sent ++ unsent ≡ sent) × Sent 3 unsent answers (some 3)
writen_sound_example =
    writen_sound sent 3 answers (some 3) sent [] (omega arith) refl (omega arith, (omega arith, tt))
      writen_run

writen_full_example : (rest : List Answer) × (writen sent 3 answers ≡ returns (some 3, sent) rest)
writen_full_example =
    writen_full sent 3 answers (omega arith) refl (omega arith, (omega arith, tt)) (omega arith)
      refl

readn-writen_example : (rest : List Reply) × (readn 3 replies ≡ returns (some 3, sent) rest)
readn-writen_example =
    readn-writen sent 3 answers sent [] replies (omega arith) refl (omega arith, (omega arith, tt))
      writen_run refl (omega arith, (omega arith, tt)) refl refl
