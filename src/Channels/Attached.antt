-- ===== src/Channels/Attached.antt =====
-- The channels of an agent after one was added, removed, or the list was set.
use clawrium.Prelude.{
  ◌∙◌, ◌≡◌, refl, ap, String, true, false, not, List, some, none, ok, if◌then◌else◌, Bool-cases,
  inl, inr, Option,
}
use clawrium.Json.{
  is_str, cons, Json, Items, Dict, str, arr, obj, nil, empty, entry, find, get_or, put, truthy,
}
use clawrium.Json.Laws.{find-put_self, get_or_of_find}
use clawrium.Json.Lists.{has_item, append_item, remove_str}
use clawrium.Config.{Config}
use clawrium.Records.{find_first}
use clawrium.Hosts.Migrate.Agents.{IsPruned-put}
use clawrium.Hosts.Store.{parse_hosts, load_hosts}
use clawrium.Hosts.Registry.{get_host, answers_to}
use clawrium.Hosts.Registry.Hostnames.{Unique}
use clawrium.Hosts.Agents.Edit.{list_or_empty, field_of, attach, detach, edit_agent_of}
use clawrium.Hosts.Agents.Edit.Found.{
  Resolves, find_agent_found, edit_agent_of-some, edit_agent_of-none,
}
use clawrium.Channels.Agents.{
  channels_of, get_agent_channels, set_agent_channels, add_agent_channel, remove_agent_channel,
}

-- The names that the agent's record holds.
abbrev pub channels_in : Dict → Items
channels_in agent = list_or_empty (get_or "channels" (arr nil) agent)

truthy_of_find : (k : String) (v : Json) (d : Dict) → find k d ≡ some v → truthy (obj d) ≡ true
unfolding find truthy
truthy_of_find k v empty e = cc
truthy_of_find k v (entry j w d) e = refl

channels_of_found :
    (agent_key : String) (h agents agent : Dict)
    → find "agents" h ≡ some (obj agents)
    → find agent_key agents ≡ some (obj agent)
    → channels_of agent_key (some h) ≡ ok (channels_in agent)
unfolding channels_of field_of
channels_of_found agent_key h agents agent a f =
    let there : get_or "agents" (obj empty) h ≡ obj agents =
      get_or_of_find "agents" (obj empty) (obj agents) h a in
    let found = rw there at (find_agent_found agent_key h agents agent a f) in
    rw (there, truthy_of_find agent_key (obj agent) agents f, found) refl

remove_str_of_absent : (s : String) (xs : Items) → has_item s xs ≡ false → remove_str s xs ≡ xs
unfolding has_item remove_str
remove_str_of_absent s nil e = refl
remove_str_of_absent s (cons x xs) e = elim (Bool-cases (is_str x s)) [
  | inl t ↦ let e' = rw t at e in cc
  | inr f ↦ rw f (ap (cons x) (remove_str_of_absent s xs (rw f at e)))
]

channels-put : (xs : Items) (r : Dict) → channels_in (put "channels" (arr xs) r) ≡ xs
unfolding list_or_empty
channels-put xs r =
    ap list_or_empty
      (get_or_of_find "channels" (arr nil) (arr xs) _ (find-put_self "channels" (arr xs) r))

module _ (now later host agent_key : String) (c : Config) (hs : List Dict)
    (e : parse_hosts now c.hosts ≡ ok hs) (u : Unique hs) (a : Resolves host agent_key hs) where
  -- What the later reading of the channels finds after an edit.
  read_after :
      (d : Config) (hs' : List Dict) (h agents agent : Dict)
      → parse_hosts later d.hosts ≡ ok hs'
      → find_first (answers_to host) hs' ≡ some h
      → find "agents" h ≡ some (obj agents)
      → find agent_key agents ≡ some (obj agent)
      → (get_agent_channels later host agent_key d).0 ≡ ok (channels_in agent)
  unfolding get_agent_channels get_host load_hosts
  read_after d hs' h agents agent p f i j =
      rw (p, f) (channels_of_found agent_key h agents agent i j)

  edited_channels :
      (edit : Dict → Option Dict) (xs : Items)
      → edit a.agent ≡ some (put "channels" (arr xs) a.agent)
      → ((edit_agent_of now host agent_key edit c).0 ≡ ok true)
        × ((get_agent_channels later host agent_key (edit_agent_of now host agent_key edit c).1).0
            ≡ ok xs)
  edited_channels edit xs ed =
      let (answer, hs', p, f) =
        edit_agent_of-some now later host agent_key edit c hs e u a
          (put "channels" (arr xs) a.agent) ed (IsPruned-put "channels" (arr xs) a.agent refl) in
      (
        answer,
        read_after _ hs' _ (put agent_key (obj (put "channels" (arr xs) a.agent)) a.agents) _ p f
              (find-put_self "agents" _ a.host_data) (find-put_self agent_key _ a.agents)
            ∙ ap ok (channels-put xs a.agent),
      )

  unedited_channels :
      (edit : Dict → Option Dict)
      → edit a.agent ≡ none
      → ((edit_agent_of now host agent_key edit c).0 ≡ ok false)
        × ((get_agent_channels later host agent_key (edit_agent_of now host agent_key edit c).1).0
            ≡ ok (channels_in a.agent))
  unedited_channels edit ed =
      let (answer, hs', p, f) = edit_agent_of-none now later host agent_key edit c hs e u a ed in
      (answer, read_after _ hs' a.host_data a.agents a.agent p f a.agents_there a.agent_there)

  -- Where the hosts can be read, their hostnames are distinct, and the identifier leads to a host with
  -- the agent: the answer is whether the channel was not attached yet, and a later reading finds it
  -- behind the channels from before, or these alone if it was among them.
  pub get_agent_channels-add_agent_channel :
      (channel_name : String)
      → ((add_agent_channel now host agent_key channel_name c).0
          ≡ ok (not (has_item channel_name (channels_in a.agent))))
        × ((get_agent_channels later host agent_key
              (add_agent_channel now host agent_key channel_name c).1).0
            ≡ ok (
                if has_item channel_name (channels_in a.agent)
                then channels_in a.agent
                else append_item (str channel_name) (channels_in a.agent)))
  unfolding add_agent_channel attach
  get_agent_channels-add_agent_channel channel_name =
      elim (Bool-cases (has_item channel_name (channels_in a.agent))) [
        | inl t ↦ rw t (unedited_channels (attach "channels" channel_name) (rw t refl))
        | inr f ↦ rw f (edited_channels (attach "channels" channel_name) _ (rw f refl))
      ]

  -- Where the hosts can be read, their hostnames are distinct, and the identifier leads to a host with
  -- the agent: the answer is whether the channel was attached, and a later reading finds the channels
  -- from before less its first occurrence.
  pub get_agent_channels-remove_agent_channel :
      (channel_name : String)
      → ((remove_agent_channel now host agent_key channel_name c).0
          ≡ ok (has_item channel_name (channels_in a.agent)))
        × ((get_agent_channels later host agent_key
              (remove_agent_channel now host agent_key channel_name c).1).0
            ≡ ok (remove_str channel_name (channels_in a.agent)))
  unfolding remove_agent_channel detach
  get_agent_channels-remove_agent_channel channel_name =
      elim (Bool-cases (has_item channel_name (channels_in a.agent))) [
        | inl t ↦ rw t (edited_channels (detach "channels" channel_name) _ (rw t refl))
        | inr f ↦
            rw (f, remove_str_of_absent channel_name (channels_in a.agent) f)
              (unedited_channels (detach "channels" channel_name) (rw f refl))
      ]

  -- Where the hosts can be read, their hostnames are distinct, and the identifier leads to a host with
  -- the agent: the list that is set is the list that a later reading finds.
  pub get_agent_channels-set_agent_channels :
      (channels : Items)
      → ((set_agent_channels now host agent_key channels c).0 ≡ ok true)
        × ((get_agent_channels later host agent_key
              (set_agent_channels now host agent_key channels c).1).0
            ≡ ok channels)
  unfolding set_agent_channels
  get_agent_channels-set_agent_channels channels =
      edited_channels (λ r. some (put "channels" (arr channels) r)) channels refl
