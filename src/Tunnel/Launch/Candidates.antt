-- ===== src/Tunnel/Launch/Candidates.antt =====
-- Where src/lib.rs looks for the proxy, and what the proxy makes of the arguments it is given.
use tap_tunnel.Prelude.{◌≡◌, none, some, List, [], ◌∷◌, ◌++◌, String, arith, Option-cases, inl, inr}
use tap_tunnel.Io.{IoResult}
use tap_tunnel.Tunnel.Launch.{
  System, proxy_name, return_if_exists, not_installed, find_in_path, find_in_manifest_dir,
  find_in_variable, find_above, find_beside, find_proxy_binary,
}

module _ (sys : System) where
  -- The first path that exists; a path that cannot be looked at ends the search.
  unfoldable pub first_existing : List String → IoResult String
  first_existing [] = not_installed sys
  first_existing (path ∷ paths) = return_if_exists sys path (first_existing paths)

  abbrev pub in_path : List String
  in_path = elim sys.which [ none ↦ [] | some path ↦ path ∷ [] ]

  abbrev pub in_manifest_dir : List String
  in_manifest_dir = elim (sys.var "CARGO_MANIFEST_DIR") [
    | none ↦ []
    | some dir ↦
        sys.join (sys.join (sys.join dir "target") "debug") proxy_name
        ∷ sys.join (sys.join (sys.join dir "target") "release") proxy_name
        ∷ []
  ]

  abbrev pub in_variable : List String
  in_variable = elim (sys.var "TAP_TUNNEL_PROXY") [ none ↦ [] | some path ↦ path ∷ [] ]

  -- The directory of the executable, and the one above it.
  abbrev pub beside : List String
  beside = elim sys.current_exe [
    | none ↦ []
    | some exe_path ↦ elim (sys.parent exe_path) [
      | none ↦ []
      | some dir ↦ elim (sys.parent dir) [
        | none ↦ sys.join dir proxy_name ∷ []
        | some above ↦ sys.join dir proxy_name ∷ sys.join above proxy_name ∷ []
      ]
    ]
  ]

  in_path-first : find_in_path sys ≡ first_existing in_path
  unfolding find_in_path first_existing
  in_path-first = elim (Option-cases sys.which) [
    | inl nowhere ↦ ground arith
    | inr (path, there) ↦ ground arith
  ]

  in_manifest_dir-first : find_in_manifest_dir sys ≡ first_existing (in_manifest_dir ++ in_path)
  unfolding find_in_manifest_dir first_existing
  in_manifest_dir-first = elim (Option-cases (sys.var "CARGO_MANIFEST_DIR")) [
    | inl unset ↦ ground (arith, in_path-first)
    | inr (dir, set) ↦ ground (arith, in_path-first)
  ]

  in_variable-first :
      find_in_variable sys ≡ first_existing (in_variable ++ (in_manifest_dir ++ in_path))
  unfolding find_in_variable first_existing
  in_variable-first = elim (Option-cases (sys.var "TAP_TUNNEL_PROXY")) [
    | inl unset ↦ ground (arith, in_manifest_dir-first)
    | inr (path, set) ↦ ground (arith, in_manifest_dir-first)
  ]

  -- The proxy is the first that exists of: the executable's directory, the one above it, the path in
  -- TAP_TUNNEL_PROXY, the debug and the release build of CARGO_MANIFEST_DIR, and what `which` finds;
  -- those that are not known are left out.
  pub find_proxy_binary-first_existing :
      find_proxy_binary sys
      ≡ first_existing (beside ++ (in_variable ++ (in_manifest_dir ++ in_path)))
  unfolding find_proxy_binary first_existing find_beside find_above
  find_proxy_binary-first_existing = elim (Option-cases sys.current_exe) [
    | inl unknown ↦ ground (arith, in_variable-first)
    | inr (exe, known) ↦ elim (Option-cases (sys.parent exe)) [
      | inl root ↦ ground (arith, in_variable-first)
      | inr (dir, below) ↦ elim (Option-cases (sys.parent dir)) [
        | inl root ↦ ground (arith, in_variable-first)
        | inr (above, lower) ↦ ground (arith, in_variable-first)
      ]
    ]
  ]
