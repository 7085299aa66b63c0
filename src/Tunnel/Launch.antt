-- ===== src/Tunnel/Launch.antt =====
-- How `connect_with_config_blocking` of src/lib.rs finds the proxy, starts it and waits for the first
-- bytes of its answer. The file system, the environment, the child and the formatting of numbers and
-- addresses are parameters.
pub mod Waiting
pub mod Candidates
use Prim.Native.String.{◌++◌ as str_append}
use tap_tunnel.Prelude.{
  ℕ, zero, suc, ◌-◌, ◌≤◌, Bool, true, false, ◌||◌, Option, none, some, List, [], ◌∷◌, ◌++◌, String,
  length, leb, if◌then◌else◌,
}
use tap_tunnel.Io.{
  IoResult, IoError, ErrorKind, ok, err, io_error, not_found, would_block, timed_out,
  unexpected_eof, other,
}
use tap_tunnel.Bytes.{Bytes}
use tap_tunnel.Net.{IpAddr}
use tap_tunnel.Tunnel.{TapConfig}

-- What `find_proxy_binary` asks of the system; a path is `none` where the call fails. `which` is
-- the trimmed output of the command, if it succeeds.
pub record System : Type 0 where
  pub current_exe : Option String
  pub parent : String → Option String
  pub join : String → String → String
  pub var : String → Option String
  pub which : Option String
  pub try_exists : String → IoResult Bool

abbrev pub proxy_name : String
proxy_name = "tap-tunnel-proxy"

module _ (sys : System) where
  -- `if path.try_exists()? { return Ok(path) }`, and what comes after it.
  unfoldable pub return_if_exists : String → IoResult String → IoResult String
  return_if_exists path rest = elim (sys.try_exists path) [
    | err e ↦ err e
    | ok true ↦ ok path
    | ok false ↦ rest
  ]

  unfoldable pub not_installed : IoResult String
  not_installed = err (
      io_error not_found
        "proxy binary 'tap-tunnel-proxy' not found. Ensure it's in the same directory as the executable, set TAP_TUNNEL_PROXY environment variable, or install it in PATH")

  unfoldable pub find_in_path : IoResult String
  unfolding return_if_exists not_installed
  find_in_path = elim sys.which [
    | none ↦ not_installed
    | some path ↦ return_if_exists path not_installed
  ]

  unfoldable pub find_in_manifest_dir : IoResult String
  unfolding find_in_path
  find_in_manifest_dir = elim (sys.var "CARGO_MANIFEST_DIR") [
    | none ↦ find_in_path
    | some dir ↦ return_if_exists (sys.join (sys.join (sys.join dir "target") "debug") proxy_name) (
        return_if_exists (sys.join (sys.join (sys.join dir "target") "release") proxy_name)
          find_in_path)
  ]

  unfoldable pub find_in_variable : IoResult String
  unfolding find_in_manifest_dir
  find_in_variable = elim (sys.var "TAP_TUNNEL_PROXY") [
    | none ↦ find_in_manifest_dir
    | some path ↦ return_if_exists path find_in_manifest_dir
  ]

  -- The directory above that of the executable.
  unfoldable pub find_above : Option String → IoResult String
  unfolding find_in_variable
  find_above none = find_in_variable
  find_above (some dir) = return_if_exists (sys.join dir proxy_name) find_in_variable

  unfoldable pub find_beside : Option String → IoResult String
  unfolding find_above
  find_beside none = find_in_variable
  find_beside (some exe_dir) =
      return_if_exists (sys.join exe_dir proxy_name) (find_above (sys.parent exe_dir))

  unfoldable pub find_proxy_binary : IoResult String
  unfolding find_beside
  find_proxy_binary = elim sys.current_exe [
    | none ↦ find_in_variable
    | some exe_path ↦ find_beside (sys.parent exe_path)
  ]

-- `to_string` of a number, and `{}/{}` of an address and its prefix length.
pub record Formats : Type 0 where
  pub number : ℕ → String
  pub prefix : IpAddr → ℕ → String

module _ (fmt : Formats) where
  -- `for (dest, prefix) in &config.peer_routes`
  unfoldable pub route_args : List (IpAddr × ℕ) → List String
  route_args [] = []
  route_args ((dest, n) ∷ rest) = "--tap-route" ∷ fmt.prefix dest n ∷ route_args rest

  unfoldable pub addr_args : Option (IpAddr × ℕ) → List String
  addr_args none = []
  addr_args (some (ip, n)) = "--tap-addr" ∷ fmt.prefix ip n ∷ []

  -- The arguments that `spawn_proxy` gives to the proxy.
  unfoldable pub spawn_args : (pid frame_fd : ℕ) → TapConfig → List String
  unfolding route_args addr_args
  spawn_args pid frame_fd config =
      ("--pid"
        ∷ fmt.number pid
        ∷ "--frame-fd"
        ∷ fmt.number frame_fd
        ∷ "--tap-name"
        ∷ config.interface_name
        ∷ [])
      ++ (addr_args config.peer_addr
          ++ (("--mtu" ∷ fmt.number config.mtu ∷ []) ++ route_args config.peer_routes))

-- The stream with its read timeout of 100 ms, the clock, and the child, as the wait for the length
-- prefix sees them.
pub record Child (D : Type 0) : Type 0 where
  pub read : D → ℕ → IoResult Bytes × D
  pub past_deadline : D → Bool
  pub try_wait : D → IoResult (Option String)
  pub stderr : D → String
  pub is_empty : String → Bool

module _ {D : Type 0} (child : Child D) where
  abbrev pub closed_message : String → String
  closed_message stderr =
      if child.is_empty stderr
      then "proxy closed connection during handshake"
      else str_append "proxy closed connection during handshake: " stderr

  abbrev pub exit_message : String → String → String
  exit_message status stderr =
      if child.is_empty stderr
      then str_append "proxy exited with " status
      else str_append (str_append (str_append "proxy exited with " status) ": ") stderr

  -- After a read that timed out: the error to return, if any.
  unfoldable pub retry : D → Option IoError
  retry d =
      if child.past_deadline d
      then some (io_error timed_out "timed out waiting for proxy handshake")
      else elim (child.try_wait d) [
        | err e ↦ some e
        | ok (some status) ↦ some (io_error other (exit_message status (child.stderr d)))
        | ok none ↦ none
      ]

  -- `e.kind() == WouldBlock || e.kind() == TimedOut`
  unfoldable pub is_timeout : ErrorKind → Bool
  is_timeout would_block = true
  is_timeout timed_out = true
  is_timeout _ = false

  -- The loop that reads the length prefix, `want` bytes of which are missing; `none` is fuel that ran
  -- out.
  unfoldable pub read_prefix_loop : ℕ → D → ℕ → Option (IoResult (Bytes × D))
  unfolding retry is_timeout
  read_prefix_loop zero d want = none
  read_prefix_loop (suc fuel) d want =
      let (r, d') = child.read d want in
      elim r [
        | ok [] ↦ some (err (io_error unexpected_eof (closed_message (child.stderr d'))))
        | ok (b ∷ bs) ↦
            if leb want (length (b ∷ bs))
            then some (ok (b ∷ bs, d'))
            else elim (read_prefix_loop fuel d' (want - length (b ∷ bs))) [
              | none ↦ none
              | some (err e) ↦ some (err e)
              | some (ok (rest, d'')) ↦ some (ok ((b ∷ bs) ++ rest, d''))
            ]
        | err e ↦ elim (is_timeout e.kind) [
          | false ↦ some (err e)
          | true ↦ elim (retry d') [
            | some e' ↦ some (err e')
            | none ↦ read_prefix_loop fuel d' want
          ]
        ]
      ]
