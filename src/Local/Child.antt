-- ===== src/Local/Child.antt =====
-- LinuxC/socket/UNIXDomainSocketIPC/server.c: the process that the server forks for a connection.
pub mod Talk
use linux_note.Base.{
  ℕ, zero, suc, ◌+◌, ◌-◌, ◌*◌, ◌/◌, ◌%◌, ◌^◌, ◌≤◌, ◌<◌, ◌≡◌, refl, sym, ap, ◌∙◌, ◌≢◌, ◌⊎◌, inl, inr,
  Bool, true, false, not, ◌&&◌, ◌||◌, Option, none, some, List, [], ◌∷◌, ◌++◌, map, append-nil,
  append_assoc, arith, ltb, leb, ◌==◌, if◌then◌else◌, Bool-cases, ==_refl, eq_of_==, ne_of_==,
  ltb→lt, leb→le, length, get_elem?, get_or, set, take, drop, replicate, length-append, length-set,
  get_or-append, set-append, get_or-set_self, get_or-set_ne, take-append, drop-append,
  length-replicate, length-drop, newline, blank, is_space, first_line, to_nul, string_at, ◌>>=◌,
  ◌>>◌, guard, load, store, load-append, store-append,
}
use linux_note.Select.{Reading, failed, bytes, to_upper}

-- What the process does; every `read` and `write` is of `connfd`.
pub data Act : Type 0 where
  prints_closed : Act
  prints_received : (uid : Option ℕ) → Act
  writes : (count : ℕ) → List ℕ → Act
  closes_connfd : Act

-- The loop, by what `read` returns in turn, with the `uid` from `serv_accept`: what the process does, and
-- whether it has exited. When `read` returns -1 the call is `write(connfd, buf, n)` with that `n` as a `size_t`.
pub local_child : (uid : Option ℕ) → List Reading → List Act × Bool
unfolding to_upper
local_child uid [] = ([], false)
local_child uid (failed ∷ rest) =
    let (done, ended) = local_child uid rest in
    (prints_received uid ∷ writes (2 ^ 64 - 1) [] ∷ done, ended)
local_child uid (bytes [] ∷ rest) = (prints_closed ∷ closes_connfd ∷ [], true)
local_child uid (bytes (c ∷ cs) ∷ rest) =
    let (done, ended) = local_child uid rest in
    (prints_received uid ∷ writes (length (c ∷ cs)) (map to_upper (c ∷ cs)) ∷ done, ended)
