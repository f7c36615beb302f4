-- ===== src/Podres/Client.antt =====
-- pkg/podres/client.go: which client of the pod resources API an endpoint leads to. url.Parse and
-- gRPC are given.
use resource_topology_export.Base.{
  ◌≡◌, ◌≢◌, refl, sym, ap, ◌∙◌, inl, inr, false, ◌||◌, Option, none, some, [], Text, Result, ok,
  failed, text_beq, text_beq_iff, Bool-cases, Result-cases, if◌then◌else◌, not,
}
use mathlib.Core.Path.{subst}
use resource_topology_export.Base.Strings.{codes}

abbrev pub unix_protocol : Text
unix_protocol = codes "unix"

abbrev pub fake_protocol : Text
fake_protocol = codes "fake"

-- url.URL
pub record Url : Type 0 where
  pub scheme : Text
  pub path : Text

pub data ClientError (E : Type 0) : Type 0 where
  library_error : E → ClientError E
  unsupported_protocol : Text → ClientError E
  not_created : E → ClientError E
  not_ready : E → ClientError E

-- What ParseEndpoint gives: a protocol and a path, which are empty beside an error.
pub record Endpoint (E : Type 0) : Type 0 where
  pub proto : Text
  pub path : Text
  pub err : Option (ClientError E)

-- A client: a connection to a socket, or the fake, which reads a file.
pub data Client (C : Type 0) : Type 0 where
  over_unix : C → Client C
  over_file : Text → Client C

module _ {E C : Type 0} (parse_url : Text → Result E Url) (dial : Text → Result E C) where
  unfoldable pub supported : Url → Endpoint E
  supported u =
      if text_beq u.scheme unix_protocol || text_beq u.scheme fake_protocol
      then record { proto = u.scheme; path = u.path; err = none }
      else record { proto = []; path = []; err = some (unsupported_protocol u.scheme) }

  abbrev parsed : Result E Url → Endpoint E
  parsed (failed e) = record { proto = []; path = []; err = some (library_error e) }
  parsed (ok u) = supported u

  -- ParseEndpoint
  unfoldable pub parse_endpoint : Text → Endpoint E
  unfolding supported
  parse_endpoint endpoint = parsed (parse_url endpoint)

  -- GetV1ClientUnix
  abbrev dialed : Result E C → Result (ClientError E) (Client C)
  dialed (failed e) = failed (library_error e)
  dialed (ok c) = ok (over_unix c)

  unfoldable pub get_v1_client_unix : Text → Result (ClientError E) (Client C)
  get_v1_client_unix path = dialed (dial path)

  -- GetV1ClientFake
  abbrev pub get_v1_client_fake : Text → Client C
  get_v1_client_fake path = over_file path

  -- The wrap of the error in GetClient.
  abbrev created : Result E C → Result (ClientError E) (Option (Client C))
  created (failed e) = failed (not_created e)
  created (ok c) = ok (some (over_unix c))

  abbrev client_for : Text → Text → Result (ClientError E) (Option (Client C))
  client_for proto path =
      if text_beq proto unix_protocol
      then created (dial path)
      else if text_beq proto fake_protocol
      then ok (some (get_v1_client_fake path))
      else ok none

  abbrev of_endpoint :
      Option (ClientError E) → Endpoint E → Result (ClientError E) (Option (Client C))
  of_endpoint (some e) ep = failed e
  of_endpoint none ep = client_for ep.proto ep.path

  -- GetClient; with no error, none is a nil client.
  unfoldable pub get_client : Text → Result (ClientError E) (Option (Client C))
  unfolding parse_endpoint
  get_client endpoint = of_endpoint (parse_endpoint endpoint).err (parse_endpoint endpoint)

  abbrev of_v1_endpoint : Option (ClientError E) → Text → Result (ClientError E) (Client C)
  of_v1_endpoint (some e) path = failed e
  of_v1_endpoint none path = get_v1_client_unix path

  abbrev v1_of_endpoint : Endpoint E → Result (ClientError E) (Client C)
  v1_of_endpoint ep =
      if not (text_beq ep.proto unix_protocol)
      then failed (unsupported_protocol ep.proto)
      else of_v1_endpoint ep.err ep.path

  -- GetV1Client: the protocol is looked at before the error.
  unfoldable pub get_v1_client : Text → Result (ClientError E) (Client C)
  unfolding parse_endpoint get_v1_client_unix
  get_v1_client endpoint = v1_of_endpoint (parse_endpoint endpoint)

-- WaitForReady, over the answer to a List that waits for the server.
unfoldable pub wait_for_ready :
    {E C : Type 0}
    → (Client C → Option E)
    → Result (ClientError E) (Client C)
    → Result (ClientError E) (Client C)
wait_for_ready list (failed e) = failed e
wait_for_ready list (ok cli) = elim (list cli) [ some e ↦ failed (not_ready e) | none ↦ ok cli ]

-- What an endpoint leads to.
pub data Reached {E C : Type 0} (parse_url : Text → Result E Url) (dial : Text → Result E C)
    (endpoint : Text)
    : Result (ClientError E) (Option (Client C)) → Result (ClientError E) (Client C) → Type 0 where
  malformed :
      (e : E)
      → parse_url endpoint ≡ failed e
      → Reached parse_url dial endpoint
          (failed (library_error e))
          (failed (unsupported_protocol []))
  foreign :
      (u : Url)
      → parse_url endpoint ≡ ok u
      → u.scheme ≢ unix_protocol
      → u.scheme ≢ fake_protocol
      → Reached parse_url dial endpoint
          (failed (unsupported_protocol u.scheme))
          (failed (unsupported_protocol []))
  fake_file :
      (u : Url)
      → parse_url endpoint ≡ ok u
      → u.scheme ≡ fake_protocol
      → Reached parse_url dial endpoint
          (ok (some (over_file u.path)))
          (failed (unsupported_protocol fake_protocol))
  unreachable :
      (u : Url) (e : E)
      → parse_url endpoint ≡ ok u
      → u.scheme ≡ unix_protocol
      → dial u.path ≡ failed e
      → Reached parse_url dial endpoint (failed (not_created e)) (failed (library_error e))
  connected :
      (u : Url) (c : C)
      → parse_url endpoint ≡ ok u
      → u.scheme ≡ unix_protocol
      → dial u.path ≡ ok c
      → Reached parse_url dial endpoint (ok (some (over_unix c))) (ok (over_unix c))

other_scheme : (a b : Text) → text_beq a b ≡ false → a ≢ b
other_scheme a b h e = let yes = (text_beq_iff a b).1 e in cc

module _ {E C : Type 0} (parse_url : Text → Result E Url) (dial : Text → Result E C)
    (endpoint : Text) where
  unix-Reached :
      (u : Url)
      → parse_url endpoint ≡ ok u
      → u.scheme ≡ unix_protocol
      → (r : Result E C) → dial u.path ≡ r
      → Reached parse_url dial endpoint (created parse_url dial r) (dialed parse_url dial r)
  unix-Reached u p s (failed e) d = unreachable u e p s d
  unix-Reached u p s (ok c) d = connected u c p s d

  -- Both functions, by the endpoint that ParseEndpoint gives.
  at_endpoint :
      (ep : Endpoint E)
      → parse_endpoint parse_url dial endpoint ≡ ep
      → Reached parse_url dial endpoint
          (of_endpoint parse_url dial ep.err ep)
          (v1_of_endpoint parse_url dial ep)
      → Reached parse_url dial endpoint
          (get_client parse_url dial endpoint)
          (get_v1_client parse_url dial endpoint)
  unfolding get_client get_v1_client
  at_endpoint ep e r =
      subst
        (λ x.
          Reached parse_url dial endpoint (of_endpoint parse_url dial x.err x)
            (v1_of_endpoint parse_url dial x))
        (sym e) r

  -- A URL with the scheme unix is dialed, by GetClient and by GetV1Client; one with the scheme fake
  -- reads a file, by GetClient only. What is no URL, or has another scheme, is an error of GetClient,
  -- while GetV1Client calls the protocol unsupported and names the empty one. GetClient never gives a
  -- nil client without an error.
  pub get_client-Reached :
      Reached parse_url dial endpoint
        (get_client parse_url dial endpoint)
        (get_v1_client parse_url dial endpoint)
  unfolding get_client get_v1_client
  get_client-Reached = elim (Result-cases (parse_url endpoint)) [
    | inl (e, p) ↦
        at_endpoint (record { proto = []; path = []; err = some (library_error e) })
          (unfold parse_endpoint in ap (parsed parse_url dial) p) (unfold text_beq in malformed e p)
    | inr (u, p) ↦ elim (Bool-cases (text_beq u.scheme unix_protocol)) [
      | inl b ↦
          at_endpoint (record { proto = u.scheme; path = u.path; err = none })
            (unfold parse_endpoint supported in ap (parsed parse_url dial) p ∙ rw b refl)
            (unfold get_v1_client_unix in
              rw b
                (unix-Reached u p ((text_beq_iff u.scheme unix_protocol).0 b) (dial u.path) refl))
      | inr b ↦ elim (Bool-cases (text_beq u.scheme fake_protocol)) [
        | inl d ↦
            at_endpoint (record { proto = u.scheme; path = u.path; err = none })
              (unfold parse_endpoint supported in ap (parsed parse_url dial) p ∙ rw (b, d) refl)
              (rw (b, d)
                (subst
                  (λ t.
                    Reached parse_url dial endpoint (ok (some (over_file u.path)))
                      (failed (unsupported_protocol t)))
                  (sym ((text_beq_iff u.scheme fake_protocol).0 d))
                  (fake_file u p ((text_beq_iff u.scheme fake_protocol).0 d))))
        | inr d ↦
            at_endpoint
              (record { proto = []; path = []; err = some (unsupported_protocol u.scheme) })
              (unfold parse_endpoint supported in ap (parsed parse_url dial) p ∙ rw (b, d) refl)
              (unfold text_beq in
                foreign u p (other_scheme u.scheme unix_protocol b)
                  (other_scheme u.scheme fake_protocol d))
      ]
    ]
  ]
