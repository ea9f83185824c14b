-- ===== src/WinServer/Handled.antt =====
-- The handlers of src/server/server-win.c that connect a client, start processes or read a line leave a
-- write under way for each client that has something to write.
use why3_fork.Base.{
  ℕ, zero, suc, ◌+◌, ◌-◌, false, not, ◌&&◌, Option, none, some, map, take, length, load, store, ltb,
  AllOk, returns, AllOk->>=, AllOk-then, guard-AllOk, if-AllOk, exit,
}
use why3_fork.Base.Int.{pos}
use why3_fork.CString.{codes}
use why3_fork.ArrayList.{list_lookup, list_append, list_length}
use why3_fork.Queue.{queue_pop, queue_push, queue_is_empty, queue_length}
use why3_fork.ReadBuf.{init_readbuf}
use why3_fork.WriteBuf.{init_writebuf}
use why3_fork.Request.{Bytes, Request, RunRequest, run, interrupt, parse_request, remove_from_queue}
use why3_fork.Server.Exec.{count_plus_one, stdin_of}
use why3_fork.Server.Clients.{read_bytes}
use why3_fork.WinServer.CommandLine.{build_command}
use why3_fork.WinServer.State.{
  Client, Server, System, deref, allocate, ask, keygen, to_ms_key, socket, process,
}
use why3_fork.WinServer.Jobs.{
  obtained, limits_set, register, created, run_for_client, run_if_present, run_request, schedule,
  schedule_new_jobs,
}
use why3_fork.WinServer.Clients.{
  bufsize, create_server_socket, create_sockets, accept_client, handle_request, handle_msg,
}
use why3_fork.WinServer.Flowing.{Takes, AllFlow, send_started-AllFlow, send_msg-AllFlow}
use why3_fork.WinServer.Served.{
  do_read-AllFlow, keygen-AllFlow, kill_processes-AllFlow, append-AllFlow, init_writebuf-Empty,
}

module _ (system : System) (takes : Takes system) where
  create_server_socket-AllFlow :
      (s : Server) (num : ℕ) → AllFlow s → AllOk AllFlow (create_server_socket system s num)
  unfolding create_server_socket ask
  create_server_socket-AllFlow s num flow =
      AllOk->>= (keygen s) (keygen-AllFlow s flow) (λ (key, s1) flow1.
        AllOk-then (obtained (system.pipe s1.trace)) (λ handle got.
          AllOk-then (to_ms_key key socket) (λ mskey made.
            guard-AllOk (system.adds_to_port s1.trace) (exit 1) _ (
              AllOk-then (store s1.server_socket num handle) (λ sockets stored.
                AllOk-then (store s1.server_key num (pos key)) (λ keys stored'.
                  guard-AllOk (system.connects s1.trace) (exit 1) _ (returns flow1)))))))

  pub create_sockets-AllFlow :
      (s : Server) (n i : ℕ) → AllFlow s → AllOk AllFlow (create_sockets system s n i)
  unfolding create_sockets
  create_sockets-AllFlow s zero i flow = returns flow
  create_sockets-AllFlow s (suc n) i flow =
      AllOk->>= (create_server_socket system s i) (create_server_socket-AllFlow s i flow)
        (λ s' flow'. create_sockets-AllFlow s' n (i + 1) flow')

  pub accept_client-AllFlow :
      (s : Server) (key num : ℕ) → AllFlow s → AllOk AllFlow (accept_client system s key num)
  unfolding accept_client allocate
  accept_client-AllFlow s key num flow = AllOk-then (load s.server_socket num) (λ handle found.
      AllOk-then (init_readbuf bufsize) (λ readbuf made.
        AllOk->>= (init_writebuf 16) (init_writebuf-Empty 16) (λ writebuf (empty, idle).
          let c : Client = record {
            handle = handle;
            readbuf = readbuf;
            writebuf = writebuf;
            write_pending = false;
          } in
          let flow1 = append-AllFlow s c (λ left. absurd cc, idle) flow in
          AllOk->>= (create_server_socket system _ num) (create_server_socket-AllFlow _ num flow1)
            (λ s2 flow2.
              AllOk-then (list_append s2.clients (pos key) (length s.heap)) (λ clients added.
                do_read-AllFlow (record s2 { clients = clients }) (length s.heap) flow2)))))

  register-AllFlow :
      (s : Server) (r : RunRequest) (client job handle : ℕ) (outfile : Bytes)
      → AllFlow s
      → AllOk AllFlow (register system s r client job handle outfile)
  unfolding register ask
  register-AllFlow s r client job handle outfile flow =
      guard-AllOk (system.assigns s.trace) (exit 1) _ (
        AllOk->>= (keygen s) (keygen-AllFlow s flow) (λ (key, s1) flow1.
          AllOk-then (list_append s1.processes (pos key) _) (λ processes added.
            let s1' : Server = record s1 { processes = processes } in
            AllOk->>= _ (send_started-AllFlow system takes s1' client r.id flow1) (λ s2 flow2.
              AllOk-then (to_ms_key key process) (λ mskey made.
                guard-AllOk (system.associates s2.trace) (exit 1) _ (returns flow2))))))

  created-AllFlow :
      (s : Server) (r : RunRequest) (client job : ℕ) (outfile : Bytes) (made : Option ℕ)
      → AllFlow s
      → AllOk AllFlow (created system s r client job outfile made)
  created-AllFlow s r client job outfile none flow =
      send_msg-AllFlow system takes s client r.id 0 (codes "0.00") false outfile flow
  created-AllFlow s r client job outfile (some handle) flow =
      register-AllFlow s r client job handle outfile flow

  run_for_client-AllFlow :
      (s : Server) (r : RunRequest) (client : ℕ)
      → AllFlow s
      → AllOk AllFlow (run_for_client system s r client)
  unfolding run_for_client ask
  run_for_client-AllFlow s r client flow =
      let argcount = count_plus_one r.numargs r.usestdin - 1 in
      AllOk-then (obtained (system.job s.trace)) (λ job got.
        AllOk-then (obtained (system.temp_name s.trace)) (λ outfile named.
          AllOk-then (stdin_of (map (λ a. some a) r.args) r.numargs r.usestdin) (λ infile given.
            AllOk-then (build_command r.cmd (take argcount r.args)) (λ cmd built.
              guard-AllOk (limits_set system s r) (exit 1) _
                (created-AllFlow _ r client job outfile (system.create s.trace) flow)))))

  run_if_present-AllFlow :
      (s : Server) (r : RunRequest) (client : Option ℕ)
      → AllFlow s
      → AllOk AllFlow (run_if_present system s r client)
  run_if_present-AllFlow s r none flow = returns flow
  run_if_present-AllFlow s r (some client) flow = run_for_client-AllFlow s r client flow

  run_request-AllFlow :
      (s : Server) (r : RunRequest) → AllFlow s → AllOk AllFlow (run_request system s r)
  unfolding run_request
  run_request-AllFlow s r flow =
      AllOk-then (list_lookup s.clients r.key)
        (λ client found. run_if_present-AllFlow s r client flow)

  schedule-AllFlow : (fuel : ℕ) (s : Server) → AllFlow s → AllOk AllFlow (schedule system fuel s)
  unfolding schedule
  schedule-AllFlow zero s flow = returns flow
  schedule-AllFlow (suc fuel) s flow =
      if-AllOk (ltb (list_length s.processes) s.parallel && not (queue_is_empty s.queue)) _ _
        (AllOk-then (queue_pop s.queue) (λ (r, queue) popped.
          AllOk->>= (run_request system (record s { queue = queue }) r)
            (run_request-AllFlow (record s { queue = queue }) r flow)
            (λ s' flow'. schedule-AllFlow fuel s' flow')))
        (returns flow)

  pub schedule_new_jobs-AllFlow :
      (s : Server) → AllFlow s → AllOk AllFlow (schedule_new_jobs system s)
  unfolding schedule_new_jobs
  schedule_new_jobs-AllFlow s flow = schedule-AllFlow (queue_length s.queue) s flow

  handle_request-AllFlow :
      (s : Server) (r : Option Request) → AllFlow s → AllOk AllFlow (handle_request system s r)
  unfolding handle_request
  handle_request-AllFlow s none flow = returns flow
  handle_request-AllFlow s (some (run r)) flow =
      if-AllOk (ltb (list_length s.processes) s.parallel) _ _ (run_request-AllFlow s r flow)
        (AllOk-then (queue_push s.queue r) (λ queue pushed. returns flow))
  handle_request-AllFlow s (some (interrupt key id)) flow =
      AllOk-then (remove_from_queue s.queue id)
        (λ queue removed. kill_processes-AllFlow (record s { queue = queue }) id flow)

  pub handle_msg-AllFlow :
      (s : Server) (client key : ℕ) → AllFlow s → AllOk AllFlow (handle_msg system s client key)
  unfolding handle_msg
  handle_msg-AllFlow s client key flow = AllOk-then (deref s client) (λ c found.
      AllOk-then (read_bytes c.readbuf.data_ (c.readbuf.len - 1) 0) (λ line read.
        AllOk-then (parse_request line (pos key) s.parallel) (λ parsed known.
          handle_request-AllFlow (record s { parallel = parsed.1 }) parsed.0 flow)))
