-- ===== src/Message/Types.antt =====
-- liblaunch/liblaunch.c: `struct _launch`, the header of a message, and what sockets answer.
use launchd.Base.{ℕ, ◌+◌, Bool, Option, List, ◌++◌, length, if◌then◌else◌}
use launchd.Data.Bytes.{bytes_of}

pub data Errno : Type 0 where
  eperm enomem eagain econnreset econnaborted ebadrpc other : Errno

-- `sendlen`, `recvlen`, `sendfdcnt` and `recvfdcnt` are the lengths of the lists. A descriptor of -1 is
-- none.
pub record Connection : Type 0 where
  pub sendbuf : List ℕ
  pub sendfds : List ℕ
  pub recvbuf : List ℕ
  pub recvfds : List ℕ
  pub use_checkin_fd : Bool
  pub cifd : Option ℕ
  pub fd : Option ℕ

unfoldable pub launchd_getfd : Connection → Option ℕ
launchd_getfd l = if l.use_checkin_fd then l.cifd else l.fd

-- LAUNCH_MSG_HEADER_MAGIC
abbrev pub magic : ℕ
magic = 0xD2FEA02366B39A41

-- struct launch_msg_header, before `content`.
unfoldable pub msg_header : List ℕ → List ℕ
msg_header content = bytes_of 8 magic ++ bytes_of 8 (length content + 16)

-- sendmsg(2): how many bytes it took, or -1 with an errno.
pub data SendAnswer : Type 0 where
  wrote : ℕ → SendAnswer
  failed : Errno → SendAnswer

-- recvmsg(2): the bytes and descriptors, and whether some of the latter were lost; or -1.
pub data RecvAnswer : Type 0 where
  received : List ℕ → List ℕ → Bool → RecvAnswer
  failed : Errno → RecvAnswer
