-- ===== src/Lib.antt =====
-- ProxPass, an SSH gateway for Proxmox VE: a model of its decisions, and what they guarantee.
--
-- A client authenticates to sshd with a key; the session it lands in holds a one-time token, exchanges
-- it for an API session, and asks the API for guests and nodes. The API answers from the repository:
-- which guests exist (kept up to date by discovery passes over the Proxmox instances), who may reach
-- them, and which tokens are good.
--
-- Files, and the code they model:
--   Models              internal/models/models.go: the rows and identities.
--   Db.State            the tables, the statements and the transaction of internal/db/sql_repository.go.
--   Db.Access           HasAccess, HasInstanceAccess, clientGroupIDs, GetDefaultPolicy. Access.Spec says
--                       by rules who may reach what, Access.Laws has the lemmas, Access.Decision
--                       compares the two.
--   Db.Guests           UpsertGuest, GetGuestByID, RemoveGuestsNotIn, RemoveProxmoxInstance; Guests.Rows
--                       has the key invariant, Guests.Prune what a prune removes, Guests.Removal what
--                       the removal of an instance leaves. Db.Runs has the lemmas on statements.
--   Db.Tokens           insertToken, MintSessionToken, RedeemSessionToken, CreateAPISession,
--                       LookupAPISession, RevokeAPISession. Tokens.Rows has the lemmas on rows,
--                       Tokens.Lifecycle and Tokens.Sessions the sequences of calls.
--   Db.Rules            grantAccess, grantInstanceAccess and the revocations; Rules.Exact has what they
--                       change.
--   Discovery           StoreGuests of internal/proxmox/reconcile.go, which uses Db.Guests.
--   Db.Named            AddClient, ListClients, UpdateClient, RemoveClient, GetClientByName and the same of
--                       groups. Named.Rows has the key invariant, Named.Lookup the sequences of changes.
--   Db.Listing          ListGuests, ListProxmoxInstances, SetSetting, GetSetting.
--   Session             internal/api/session.go: who is calling, the exchange of a minted token and the
--                       revocation of a credential; Session.Data has the handlers of
--                       internal/api/sessiondata.go. Session.Requests reduces requests to the calls of
--                       Db.Tokens, Session.Credentials and Session.Lifetimes say what a token is good for;
--                       Session.Reach, Session.Shown, Session.Connect and Session.Nodes who sees and
--                       gets what.
--   Db.Instances        AddProxmoxInstance, UpdateProxmoxInstance and the stored form of fingerprints;
--                       Instances.Rows has the key invariant, Named.Shapes the
--                       form of stored names and URLs. The schema is part of the tables where SQLite's and
--                       PostgreSQL's differ: only the latter has UNIQUE(api_url).
--   Db.Keys             the admin keys and SetDefaultPolicy. Db.Activity has the activity log, Db.Frames and
--                       Discovery.Frames what each change leaves alone.
--   Admin               internal/api/adminhandlers.go and activity.go: the gate that every administrative
--                       request passes and the record it leaves. Admin.Wire has adminmappers.go;
--                       Admin.Clients, Groups, Instances, Rules and Keys have the handlers, Admin.Requests
--                       one request of any of them. Admin.Changes reduces requests to repository calls, which
--                       Admin.Protected, Names and Log use; Admin.Outcome, Atomic, Quiet and Ends say how
--                       the parts of a handler end, for Admin.Gate, Audit, Clashes and Effects. Admin.Settings
--                       has settings.go, Admin.Reports the reports of sessions, Admin.Pruner activitypruner.go.
--   Remote              internal/session/adminrepo.go and adminmappers.go: the repository that the
--                       administrator's session has, which asks the handlers of Admin; and the policy edits
--                       of internal/cli/policy.go over it. Remote.Agreement compares it with the repository.
--   Directory           the NSS handlers of internal/api/server.go with the entries of
--                       internal/api/types.go, over Ids and Db.Named. Directory.Names has the login names
--                       of internal/api/loginname.go, Directory.Accounts the lookups of a user,
--                       Directory.Listing the lists.
--   Target              internal/cli/resolve.go: Target.Decimal has the decimal numbers, Target.Parse the cut
--                       of a target, Target.Resolve what resolves, Target.Hints the hints.
--   Helper              internal/guesthelper/protocol.go; Helper.RoundTrip has what is read back.
--   Console             internal/console/crlf.go and escape.go; Console.Laws has their proofs.
--   Terminal            the mode filter of internal/console/modefilter.go, which decides when the status
--                       bar must hide or be drawn again.
--   Filter              internal/filter: Walk, and the SQL and Boolean meanings of a filter.
--   Ids                 internal/api/idlayout.go: the uids and gids that the directory serves.
--   Picker              internal/session/sortmode.go (Picker.Order) and the cursor and window of
--                       internal/session/interactive.go (Picker.Window). sort.SliceStable is an insertion.
--   Base                lists, bytes, Boolean tests, results with errors.
-- The Tests modules run the definitions on small data and apply the theorems there.
--
-- How the code is translated:
--   - A function of the source is the definition of the same name in this spelling: HasAccess is
--     has_access. A method that writes returns its result and the new tables.
--   - A table is a list of rows and a statement is a function on it. Whether the database answers a
--     statement is a parameter: `down` says which statements fail, and a failed statement changes
--     nothing. Every theorem holds for every `down` unless it says otherwise.
--   - The order in which Go visits the keys of a map is a parameter, `MapOrder`: some arrangement of
--     the keys.
--   - Row ids, VMIDs and Unix seconds are natural numbers, Go strings are lists of bytes. No modelled
--     arithmetic on them can wrap but the AUTOINCREMENT counter, which the database bounds; the sums of
--     Unix ids are 64-bit, with the wrap-around written out.
--   - SHA-256, the strings functions on Unicode and a fresh random credential are parameters; the
--     theorems need nothing of them but what they say.
--   - Errors carry no message: only what callers tell apart (errors.Is, isConflict) is kept. A duplicate
--     key is `unique_violation` where the driver's error is passed on and `already_exists` where the
--     repository words it; whether the driver's words are those that isConflict looks for is a
--     parameter.
--   - An event of the activity log has its parameters as a list of names and values.
--   - A loop is structural recursion over the list it ranges over. The loop of Observe runs on fuel, the
--     length of its buffer: each of its steps drops at least one byte. The decimal form of a number n
--     is made in at most n + 1 steps, a digit in each.
--   - A handler runs over one state of the tables: what other processes write between two statements of
--     one request is not modelled. Sequences of requests and of calls are lists, in any order.
-- Not modelled: the administrative lists with a filter, a discovery on demand, SQL parsing and the drivers, the HTTP layer and its generated code, the network calls
-- to Proxmox, processes, terminals and files, the rest of the command line and the web interface, which carry the
-- values that the modelled functions compute; what the picker and the status bar draw.
pub mod Base
pub mod Models
pub mod Db
pub mod Discovery
pub mod Directory
pub mod Session
pub mod Target
pub mod Helper
pub mod Console
pub mod Admin
pub mod Remote
pub mod Terminal
pub mod Filter
pub mod Ids
pub mod Picker
