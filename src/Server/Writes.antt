-- ===== src/Server/Writes.antt =====
-- `write_to_client` of src/server/server-unix.c.
use why3_fork.Base.{
  ℕ, ◌≡◌, refl, true, false, Option, none, some, List, [], ◌∷◌, ok, err, assertion, get_elem?, set,
  get_elem?-set_self, get_elem?-lt, length, ◌<◌, ◌++◌, not, if◌then◌else◌, load_lem, store_lem,
}
use why3_fork.WriteBuf.{has_write_data}
use why3_fork.WriteBuf.Stream.{have_written-pending}
use why3_fork.PollList.{PollFd, PollList, set_events}
use why3_fork.PollList.Entries as polls
use why3_fork.PollList.Entries.{set_events_lem}
use why3_fork.WriteBuf.Pending.{
  Holds, pending, any_left, has_write_data_lem, prepare_write_lem, prepare_write-writing,
}
use why3_fork.Request.{Bytes}
use why3_fork.Server.State.{Client, Server, deref, assign}
use why3_fork.Server.Clients.{write_to_client, written, after_write}

-- Where `write` fails for a client with messages and no write begun, `write_to_client` returns,
-- but the next call for this client stops at an assertion, whatever `write` would return then.
pub write_to_client-failed :
    (s : Server) (ptr entry entry' : ℕ) (answer : Option ℕ) (c : Client) (m : Bytes)
    (ms : List Bytes)
    → get_elem? s.heap ptr ≡ some (some c)
    → Holds c.writebuf (m ∷ ms)
    → c.writebuf.is_writing ≡ false
    → (s' : Server) × (write_to_client s ptr entry none ≡ ok ([], s'))
      × (write_to_client s' ptr entry' answer ≡ err assertion)
unfolding write_to_client deref assign has_write_data written after_write
write_to_client-failed s ptr entry entry' answer c m ms at v idle =
    let b = record c.writebuf { is_writing = true } in
    let c' = record c { writebuf = b } in
    let heap = set s.heap ptr (some c') in
    (
      record s { heap = heap },
      rw
          (
            load_lem s.heap ptr at,
            (prepare_write_lem m ms v idle).0,
            store_lem s.heap ptr c' (get_elem?-lt s.heap ptr at),
            v.current.0,
          )
          refl,
      rw
          (
            load_lem heap ptr
                (get_elem?-set_self s.heap ptr (some c') (get_elem?-lt s.heap ptr at)),
            prepare_write-writing b refl,
          )
          refl,
    )

-- A write that succeeds: the bytes that `write` took, and what the client waits for afterwards.
pub record Wrote (s : Server) (ptr entry n : ℕ) (c : Client) (ms : List Bytes) : Type 0 where
  pub sent : Bytes
  pub after : Server
  pub runs : write_to_client s ptr entry (some n) ≡ ok (sent, after)
  pub client : Client
  pub left : List Bytes
  pub there : get_elem? after.heap ptr ≡ some (some client)
  pub waiting : Holds client.writebuf left
  pub idle : client.writebuf.is_writing ≡ false
  pub bytes : sent ++ pending client.writebuf.pointer left ≡ pending c.writebuf.pointer ms
  pub es : List PollFd
  pub polls : polls.Holds after.polls es

-- Where the call of `write` takes some of the bytes of a client with messages and no write begun,
-- `write_to_client` returns: the bytes that it took, and those that the client waits for
-- afterwards, are those that it waited for before, and the next write can begin. The entry of the
-- client is in the poll list.
pub write_to_client-Wrote :
    (s : Server) (ptr entry n : ℕ) (c : Client) (m : Bytes) (ms : List Bytes) (es : List PollFd)
    → get_elem? s.heap ptr ≡ some (some c)
    → Holds c.writebuf (m ∷ ms)
    → c.writebuf.is_writing ≡ false
    → polls.Holds s.polls es
    → entry < length es
    → Wrote s ptr entry n c (m ∷ ms)
unfolding write_to_client deref assign written after_write
write_to_client-Wrote s ptr entry n c m ms es at v idle w h =
    let (b, left, e, v', idle', bytes, _) = have_written-pending m ms n v idle in
    let c' = record c { writebuf = b } in
    let heap = set s.heap ptr (some c') in
    let (p, es', run, w') = unwatched left in
    record {
      sent = _;
      after = record s { heap = heap; polls = p };
      runs =
          rw
            (
              load_lem s.heap ptr at,
              (prepare_write_lem m ms v idle).0,
              e,
              store_lem s.heap ptr c' (get_elem?-lt s.heap ptr at),
              has_write_data_lem left v',
              run,
            )
            refl;
      client = c';
      left = left;
      there = get_elem?-set_self s.heap ptr (some c') (get_elem?-lt s.heap ptr at);
      waiting = v';
      idle = idle';
      bytes = bytes;
      es = es';
      polls = w';
    }
  where
    unwatched :
        (left : List Bytes)
        → (p : PollList) × (es' : List PollFd) × ((if not (any_left left)
              then set_events s.polls entry (λ b. record b { pollout = false })
              else ok s.polls)
            ≡ ok p)
          × polls.Holds p es'
    unwatched [] = set_events_lem es entry _ w h
    unwatched (m ∷ left) = (s.polls, es, refl, w)
