-- ===== src/Agent/Dispatch/Answers.antt =====
-- No command is dropped: it starts one thread or it queues one CMD_RESULT that says why not.
use leo_one.Prelude.{
  leb, ◌==◌, if◌then◌else◌, length, suc, take, all, Bytes, bytes, ℕ, ◌+◌, ◌<◌, ◌≡◌, refl, ap, ◌⊎◌,
  inl, inr, [], Bool, true, false, not, Option, none, some, ◌∷◌, arith,
}
use leo_one.Prelude.Int.{negsuc}
use leo_one.Conn.{send, send_built}
use leo_one.Protocol.{Stamp, build_cmd_result}
use leo_one.Protocol.Tree.{Cjson}
use leo_one.Agent.{
  exec_default_timeout_sec, exec_max_timeout_sec, Task, Agent, Choices, pkg_name_valid,
  patch_id_valid, release_exec_slot, send_msg, send_cmd_error, reserve_exec_slot, spawn_detached,
  with_slot, launch,
}
use leo_one.Types.{
  max_msg_size, MsgType, exec_script, install_pkg, reboot, collect_inventory, install_patches,
  file_transfer,
}
use leo_one.Protocol.Incoming.{get_string}
use leo_one.Agent.Dispatch.{
  timeout_of, exec_script_with, dispatch_exec_script, requested_packages, dispatch_install_pkg,
  requested_patches, dispatch_install_patches, nonempty_string, transfer_with,
  dispatch_file_transfer, dispatch_reboot, dispatch_collect_inventory, handle,
}

-- The CMD_RESULT of -1 with an empty output that says why a command is refused.
abbrev pub error_result : {Node : Type 0} → Cjson Node → Bytes → Bytes → Stamp → Option Bytes
error_result cj cmd_id err_msg st = build_cmd_result cj cmd_id (negsuc 0) [] err_msg st max_msg_size

-- The ways to deal with a command: a thread and a slot of its own and nothing sent; one CMD_RESULT of -1
-- for that command handed to leo_conn_send and nothing else changed; or, where that message cannot be
-- built, nothing at all.
pub data Answered {Node : Type 0} (cj : Cjson Node) (ag : Agent) (cmd_id : Bytes) (st : Stamp)
    : Agent → Type 0 where
  started :
      (task : Task) (timeout : ℕ)
      → ag.exec_active_count < 4
      → Answered cj ag cmd_id st (record ag {
        exec_active_count = ag.exec_active_count + 1;
        running =
            record { cmd_id = take 36 cmd_id; timeout_secs = timeout; task = task } ∷ ag.running;
      })
  refused :
      (err_msg msg : Bytes)
      → error_result cj cmd_id err_msg st ≡ some msg
      → 0 < length msg
      → Answered cj ag cmd_id st (record ag { conn = (send ag.conn msg).0 })
  unsaid :
      (err_msg : Bytes)
      → (error_result cj cmd_id err_msg st ≡ none) ⊎ (error_result cj cmd_id err_msg st ≡ some [])
      → Answered cj ag cmd_id st ag

-- The messages that a CMD_RESULT answers.
abbrev pub is_command : MsgType → Bool
is_command exec_script = true
is_command install_pkg = true
is_command reboot = true
is_command collect_inventory = true
is_command install_patches = true
is_command file_transfer = true
is_command _ = false

module _ {Node : Type 0} (cj : Cjson Node) where
  either_way :
      {ag : Agent} {cmd_id : Bytes} {st : Stamp} (b : Bool) {x y : Agent}
      → (b ≡ true → Answered cj ag cmd_id st x)
      → (b ≡ false → Answered cj ag cmd_id st y)
      → Answered cj ag cmd_id st (if b then x else y)
  either_way true f g = f refl
  either_way false f g = g refl

  -- What `_send_cmd_error` does, by whether its message can be built.
  by_message :
      (ag : Agent) (cmd_id err_msg : Bytes) (st : Stamp) (o : Option Bytes)
      → error_result cj cmd_id err_msg st ≡ o
      → Answered cj ag cmd_id st (record ag { conn = (send_built ag.conn o).0 })
  unfolding send_built
  by_message ag cmd_id err_msg st none e = unsaid err_msg (inl e)
  by_message ag cmd_id err_msg st (some []) e = unsaid err_msg (inr e)
  by_message ag cmd_id err_msg st (some (c ∷ msg)) e =
      let filled : (suc (length msg) == 0) ≡ false = ground arith in
      rw filled (refused err_msg (c ∷ msg) e (omega arith))

  send_cmd_error-Answered :
      (ag : Agent) (cmd_id err_msg : Bytes) (st : Stamp)
      → Answered cj ag cmd_id st (send_cmd_error cj ag cmd_id err_msg st)
  unfolding send_cmd_error send_msg
  send_cmd_error-Answered ag cmd_id err_msg st = by_message ag cmd_id err_msg st _ refl

  -- A slot that is given back leaves no trace.
  refused_after :
      (ag : Agent) (cmd_id err_msg : Bytes) (st : Stamp)
      → Answered cj ag cmd_id st (
          send_cmd_error cj
            (release_exec_slot (record ag { exec_active_count = ag.exec_active_count + 1 }))
            cmd_id
            err_msg
            st)
  unfolding release_exec_slot
  refused_after ag cmd_id err_msg st =
      let restored : release_exec_slot (record ag { exec_active_count = ag.exec_active_count + 1 })
          ≡ ag =
        ap (λ n. record ag { exec_active_count = n }) (omega arith) in
      rw restored (send_cmd_error-Answered ag cmd_id err_msg st)

  with_slot-Answered :
      (ag : Agent) (cmd_id : Bytes) (task : Task) (timeout : ℕ) (ch : Choices)
      → ag.exec_active_count < 4
      → Answered cj ag cmd_id ch.stamp (
          with_slot cj
            (record ag { exec_active_count = ag.exec_active_count + 1 })
            cmd_id
            task
            timeout
            ch)
  unfolding with_slot spawn_detached
  with_slot-Answered ag cmd_id task timeout ch h =
      either_way ch.alloc
        (λ _.
          either_way ch.spawned (λ _. started task timeout h)
            (λ _. refused_after ag cmd_id _ ch.stamp))
        (λ _. refused_after ag cmd_id _ ch.stamp)

  launch-Answered :
      (ag : Agent) (cmd_id : Bytes) (task : Task) (timeout : ℕ) (ch : Choices)
      → Answered cj ag cmd_id ch.stamp (launch cj ag cmd_id task timeout ch)
  unfolding launch reserve_exec_slot
  launch-Answered ag cmd_id task timeout ch = by_reserve (leb 4 ag.exec_active_count) refl
    where
      by_reserve :
          (b : Bool)
          → leb 4 ag.exec_active_count ≡ b
          → Answered cj ag cmd_id ch.stamp
              (elim (if b
                then none
                else some (record ag { exec_active_count = ag.exec_active_count + 1 })) [
                  | none ↦
                      send_cmd_error cj ag cmd_id
                        (bytes "Trop de commandes en cours d'exécution sur l'agent")
                        ch.stamp
                  | some reserved ↦ with_slot cj reserved cmd_id task timeout ch
                ])
      by_reserve true e = send_cmd_error-Answered ag cmd_id _ ch.stamp
      by_reserve false e = with_slot-Answered ag cmd_id task timeout ch (ground arith)

  -- What the dispatchers do with the message of one command.
  dispatch_exec_script-Answered :
      (ag : Agent) (cmd_id : Bytes) (body : Option Node) (ch : Choices)
      → Answered cj ag cmd_id ch.stamp (dispatch_exec_script cj ag cmd_id body ch)
  unfolding dispatch_exec_script exec_script_with
  dispatch_exec_script-Answered ag cmd_id body ch =
      by_fields (get_string cj body (bytes "interpreter")) (get_string cj body (bytes "script"))
        (timeout_of cj body exec_max_timeout_sec exec_default_timeout_sec)
    where
      by_fields :
          (interpreter script : Option Bytes) (timeout : ℕ)
          → Answered cj ag cmd_id ch.stamp
              (exec_script_with cj ag cmd_id interpreter script timeout ch)
      by_fields (some interpreter) (some script) timeout = launch-Answered ag cmd_id _ _ ch
      by_fields (some interpreter) none timeout = send_cmd_error-Answered ag cmd_id _ ch.stamp
      by_fields none script timeout = send_cmd_error-Answered ag cmd_id _ ch.stamp

  dispatch_install_pkg-Answered :
      (ag : Agent) (cmd_id : Bytes) (body : Option Node) (ch : Choices)
      → Answered cj ag cmd_id ch.stamp (dispatch_install_pkg cj ag cmd_id body ch)
  unfolding dispatch_install_pkg
  dispatch_install_pkg-Answered ag cmd_id body ch =
      let names = requested_packages cj body in
      either_way (length names == 0) (λ _. send_cmd_error-Answered ag cmd_id _ ch.stamp)
        (λ _.
          either_way (not (all pkg_name_valid names))
            (λ _. send_cmd_error-Answered ag cmd_id _ ch.stamp)
            (λ _. launch-Answered ag cmd_id _ _ ch))

  dispatch_install_patches-Answered :
      (ag : Agent) (cmd_id : Bytes) (body : Option Node) (ch : Choices)
      → Answered cj ag cmd_id ch.stamp (dispatch_install_patches cj ag cmd_id body ch)
  unfolding dispatch_install_patches
  dispatch_install_patches-Answered ag cmd_id body ch =
      let ids = requested_patches cj body in
      either_way (length ids == 0) (λ _. send_cmd_error-Answered ag cmd_id _ ch.stamp)
        (λ _.
          either_way (not (all patch_id_valid ids))
            (λ _. send_cmd_error-Answered ag cmd_id _ ch.stamp)
            (λ _. launch-Answered ag cmd_id _ _ ch))

  dispatch_file_transfer-Answered :
      (ag : Agent) (cmd_id : Bytes) (body : Option Node) (ch : Choices)
      → Answered cj ag cmd_id ch.stamp (dispatch_file_transfer cj ag cmd_id body ch)
  unfolding dispatch_file_transfer transfer_with
  dispatch_file_transfer-Answered ag cmd_id none ch = send_cmd_error-Answered ag cmd_id _ ch.stamp
  dispatch_file_transfer-Answered ag cmd_id (some node) ch =
      by_fields (nonempty_string cj (some node) (bytes "download_url"))
        (nonempty_string cj (some node) (bytes "filename"))
    where
      by_fields :
          (url name : Option Bytes)
          → Answered cj ag cmd_id ch.stamp (transfer_with cj ag cmd_id (some node) url name ch)
      by_fields (some url) (some name) = launch-Answered ag cmd_id _ _ ch
      by_fields (some url) none = send_cmd_error-Answered ag cmd_id _ ch.stamp
      by_fields none name = send_cmd_error-Answered ag cmd_id _ ch.stamp

  -- A command, of the six kinds that the backend awaits a CMD_RESULT for, either has a slot and a live thread
  -- of its own, from a state with a slot free, and nothing is sent; or it has none, nothing but the connection
  -- changes, and one CMD_RESULT with the exit code -1 and a message of its error is handed to leo_conn_send,
  -- unless that CMD_RESULT cannot be built or is empty: then nothing is sent.
  pub handle-Answered :
      (ag : Agent) (kind : MsgType) (id : Bytes) (body : Option Node) (ch : Choices)
      → is_command kind ≡ true
      → Answered cj ag id ch.stamp (handle cj ag kind id body ch)
  unfolding handle dispatch_reboot dispatch_collect_inventory
  handle-Answered ag exec_script id body ch h = dispatch_exec_script-Answered ag id body ch
  handle-Answered ag install_pkg id body ch h = dispatch_install_pkg-Answered ag id body ch
  handle-Answered ag reboot id body ch h = launch-Answered ag id _ _ ch
  handle-Answered ag collect_inventory id body ch h = launch-Answered ag id _ _ ch
  handle-Answered ag install_patches id body ch h = dispatch_install_patches-Answered ag id body ch
  handle-Answered ag file_transfer id body ch h = dispatch_file_transfer-Answered ag id body ch
  handle-Answered ag _ id body ch h = ground arith
