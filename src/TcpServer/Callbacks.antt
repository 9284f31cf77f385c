-- ===== src/TcpServer/Callbacks.antt =====
-- include/TcpServer.h and src/TcpServer.cc: the user's callbacks, and those that a connection is
-- given. `C` is the state of a connection; a callback that was not set is `none`.
use muduo_learning.Prelude.{ℕ, Option, none, some, Outcome, Bool, false}
use muduo_learning.TcpConnection.{HandlersOf}

module _ {C : Type 0} where
  -- The setters of a connection.
  abbrev pub no_handlers : HandlersOf C
  no_handlers = record { connection = none; message = none; close = none }

  abbrev pub set_connection_callback : Option (C → Outcome C) → HandlersOf C → HandlersOf C
  set_connection_callback f h = record h { connection = f }

  abbrev pub set_message_callback : Option (ℕ → C → Outcome C) → HandlersOf C → HandlersOf C
  set_message_callback f h = record h { message = f }

  abbrev pub set_close_callback : Option (C → Outcome C) → HandlersOf C → HandlersOf C
  set_close_callback f h = record h { close = f }

-- The callbacks that the server keeps. Of the write-complete callback a connection records only
-- whether it is set (`has_write_complete`); of the callback for the loops' threads the server knows
-- only whether it is set, as the pool does.
pub record UserCallbacks (C : Type 0) : Type 0 where
  pub connection : Option (C → Outcome C)
  pub message : Option (ℕ → C → Outcome C)
  pub write_complete : Option (C → Outcome C)
  pub has_thread_init : Bool

module _ {C : Type 0} where
  abbrev pub no_user_callbacks : UserCallbacks C
  no_user_callbacks = record {
    connection = none;
    message = none;
    write_complete = none;
    has_thread_init = false;
  }

  -- The server's setters.
  abbrev pub on_connections : (C → Outcome C) → UserCallbacks C → UserCallbacks C
  on_connections f u = record u { connection = some f }

  abbrev pub on_messages : (ℕ → C → Outcome C) → UserCallbacks C → UserCallbacks C
  on_messages f u = record u { message = some f }

  abbrev pub on_write_completes : (C → Outcome C) → UserCallbacks C → UserCallbacks C
  on_write_completes f u = record u { write_complete = some f }

  abbrev pub on_thread_init : Bool → UserCallbacks C → UserCallbacks C
  on_thread_init has_cb u = record u { has_thread_init = has_cb }

  -- What `newConnection` gives to a connection; `remove` is the server's `removeConnection`.
  -- The write-complete callback is given by TcpConnection.Owned.set_write_complete_callback.
  abbrev pub give_callbacks : UserCallbacks C → Option (C → Outcome C) → HandlersOf C
  give_callbacks u remove =
      set_close_callback remove
        (set_message_callback u.message (set_connection_callback u.connection no_handlers))
