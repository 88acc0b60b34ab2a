-- ===== src/Tests/Descriptors.antt =====
-- Requests for descriptors of FUSE mounts at concrete inputs.
use dingofs_csi.Common.{
  ℕ, ◌+◌, String, true, false, List, [], ◌∷◌, some, none, ◌≡◌, refl, lookup, zero, suc, insert,
}
use Prim.Native.String.{◌++◌ as append}
use dingofs_csi.Common.Integers.{ℤ, pos}
use dingofs_csi.Common.Exec.{Result, ok, err, panicked, ◌>>=◌, attempt, pure, handle}
use dingofs_csi.Fds.Descriptors.{
  Fd, Process, Sockets, closed, took, get_fd, put_fd, rights_of, take_each, close_each, note, call,
  try_call, do_with_timeout,
}
use dingofs_csi.Fds.{
  get_fd_address, stop_fd, put_back, address_by, add_fd, add_at, entry, enter, deref, store,
  object_at, set_object, new_fd,
}
use dingofs_csi.Fds.Requests.{
  ask_pod, finish_request, handle_fd_request, serve_entry, serve_request, hand_out, take_back,
  keep_or_close,
}
use dingofs_csi.Fds.Count.{held, closes, count, takes}
use dingofs_csi.Fds.Balance.{Lost, Points, handle_fd_request-Balanced}
use dingofs_csi.Fds.Stopping.{Reached, start, get_address, Reached-stops}
use dingofs_csi.Fds.Interrupted.{stop_fd-interrupted}

abbrev answered : Result (String × Result (List (Result (List ℤ))))
answered = ok ("FUSE 2", ok (ok (pos 9 ∷ []) ∷ []))

-- A pod that sends back descriptor 9.
abbrev test_sockets : Sockets ℕ ℕ
test_sockets = record {
  join = λ dir name. append dir (append "/" name);
  timed_out = λ w. (false, w);
  path_exists = λ path w. ((true, ok tt), w);
  stat = λ path w. (ok tt, w);
  read_dir = λ path w. (ok [], w);
  perform = λ action w. (ok tt, w);
  listen = λ address w. (ok tt, w);
  dial = λ address w. (ok 0, w);
  file = λ conn w. (ok tt, w);
  sendmsg = λ conn msg fds w. (ok tt, w);
  recvmsg = λ conn num w. (answered, w);
}

abbrev test_fd : Fd
test_fd = record {
  is_done = false;
  fuse_fd = pos 5;
  fuse_setting = "FUSE 1";
  server_address = "/run/h/fuse_fd_csi_comm.sock";
  server_address_in_pod = "/run/fuse_fd_csi_comm.sock";
}

abbrev test_process : Process ℕ
test_process = record {
  world = 0;
  base_path = "/run";
  fds = ("h", 0) ∷ [];
  objects = test_fd ∷ [];
  log = [];
  servers = [];
}

test_process-Points : Points "h" test_process
unfolding lookup object_at
test_process-Points zero l = (test_fd, refl)
test_process-Points (suc a) l = absurd cc

-- Descriptor 5 is handed out and closed, descriptor 9 is kept.
served :
    (handle_fd_request test_sockets "h" 0 test_process).1.log ≡ took (pos 9) ∷ closed (pos 5) ∷ []
unfolding handle_fd_request serve_entry serve_request ask_pod finish_request hand_out take_back
    keep_or_close entry get_fd put_fd rights_of take_each close_each note call try_call deref store
    put_back lookup object_at set_object ◌>>=◌ attempt pure handle
served = refl

handle_fd_request-Balanced_example :
    (lost : List ℤ) × Lost test_sockets 0 lost
    × ((d : ℕ)
        → held d (handle_fd_request test_sockets "h" 0 test_process).1.objects
            + closes d (handle_fd_request test_sockets "h" 0 test_process).1.log
            + count d lost
            + takes d test_process.log
          ≡ held d test_process.objects
            + closes d test_process.log
            + takes d (handle_fd_request test_sockets "h" 0 test_process).1.log)
handle_fd_request-Balanced_example =
    handle_fd_request-Balanced test_sockets "h" 0 test_process test_process-Points

abbrev empty_process : Process ℕ
empty_process = record {
  world = 0;
  base_path = "/run";
  fds = [];
  objects = [];
  log = [];
  servers = [];
}

entered : Reached test_sockets (get_fd_address test_sockets "h" empty_process).1
entered = get_address "h" (start empty_process refl)

Reached-stops_example :
    ((stop_fd test_sockets "h" (get_fd_address test_sockets "h" empty_process).1).0 ≡ ok tt)
    × (lookup "h" (stop_fd test_sockets "h" (get_fd_address test_sockets "h" empty_process).1).1.fds
        ≡ none)
Reached-stops_example = Reached-stops test_sockets entered "h"

first_address : lookup "h" (get_fd_address test_sockets "h" empty_process).1.fds ≡ some 0
unfolding get_fd_address address_by add_fd add_at entry enter do_with_timeout call try_call lookup
    insert ◌>>=◌ attempt pure handle
first_address = refl

abbrev address_process : Process ℕ
address_process = (get_fd_address test_sockets "h" empty_process).1

pod_answers : (ask_pod test_sockets 0 0 address_process).0 ≡ ok ("FUSE 2", pos 9 ∷ [])
unfolding get_fd_address address_by add_fd add_at entry enter do_with_timeout ask_pod hand_out
    get_fd put_fd rights_of take_each close_each note call try_call deref store lookup object_at
    set_object insert ◌>>=◌ attempt pure handle new_fd
pod_answers = refl

stop_fd-interrupted_example :
    ((handle_fd_request test_sockets "h" 0 address_process).1
      ≡ (finish_request test_sockets "h" 0
          ("FUSE 2", pos 9 ∷ [])
          (ask_pod test_sockets 0 0 address_process).1).1)
    × ((stop_fd test_sockets "h"
          (finish_request test_sockets "h" 0
            ("FUSE 2", pos 9 ∷ [])
            (stop_fd test_sockets "h" (ask_pod test_sockets 0 0 address_process).1).1).1).0
        ≡ err panicked)
stop_fd-interrupted_example =
    stop_fd-interrupted test_sockets entered "h" 0 0 ("FUSE 2", pos 9 ∷ []) first_address
      pod_answers
