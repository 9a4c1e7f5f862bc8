-- ===== src/Lib.antt =====
-- Skorekeeper: the game logic of the baseball scoring application.
--
-- The client keeps a game as an append-only log of actions. `gameReducer` of frontend/reducer.js
-- turns a state and an action into the next state; `computeStateFromLog` replays a log, less what
-- its undo actions take back; `HistoryManager` of frontend/game/historyManager.js chooses what undo
-- and redo name; `dispatch` of frontend/controllers/ActiveGameController.js appends to the log and
-- keeps the state in step with it, and hands every action to `SyncManager`, which queues it for the
-- server and brings the actions of others back. The statistics are a function of the state, the
-- editors (lineup, ball in play, substitution) make the payloads of actions, and the permissions say
-- who may read and write a game.
--
-- Files and what they model:
--   Common        names, Boolean tests, lists, dictionaries (JavaScript objects), texts, integers
--   Game          the data: Codes (frontend/constants.js), Events (a cell), States (the game state),
--                 Actions (types and payloads), Keys (`${team}-${row}-${col}` and its parts)
--   Outs          `calculateInningOutsExclude`
--   Pitch         `applyPitch`: count, walk, strikeout, pitch log
--   Runners       `applyRunnerAdvance`, `applyRunnerBatchUpdate`
--   Play          `applyPlayResult`, with Play.Outcome for the outcome text
--   Columns       `applyAddInning`, `applyAddColumn`, `applyRemoveColumn`, `applySetInningLead`
--   Bases         `getRunnersOnBase` of frontend/game/runnerManager.js
--   Advances      `calculateDefaultAdvances` of frontend/game/runnerManager.js
--   Cso           `CSOManager` of frontend/game/csoManager.js, on a form whose result is set
--   Cycle         the choice of the next option, for Cso
--   Roster        `applyGameStart`, `applyLineupUpdate`, `applySubstitution`
--   Edits         the other handlers: metadata, import, clear, move, overrides, single cells
--   Reducer       `gameReducer`
--   Log           `computeStateFromLog`
--   History       `getEffectiveLog`, `getUndoTargetId`, `getRedoTargetId`, `undo`, `redo`
--   Dispatch      `dispatch`
--   Sync          `SyncManager` of frontend/services/syncManager.js with `handleSyncConflict` of
--                 frontend/controllers/AppController.js: States, Queue (`processHttpQueue` up to
--                 its request, `sendAction`, `resolveFastForward`), Messages (`handleMessage`, and
--                 the rest of `processHttpQueue`), Socket (`connect`, its events, and the steps)
--   Stats         `StatsEngine` of frontend/game/statsEngine.js: Lines (the records and the tests on
--                 an outcome), Plays (one cell), Innings (innings pitched), Scores, Games
--                 (`calculateGameStats`), Totals (`aggregateStats`, `aggregatePrecalculatedStats`)
--   Access        `PermissionService` of frontend/services/PermissionService.js
--   Search        `parseQuery` and `buildQuery` of frontend/utils/searchParser.js
--   Lineup        the lineup editor of frontend/game/lineupManager.js
--   Bench         `getAllAvailablePlayers` of frontend/game/substitutionManager.js
--   Feed          `generateLinearHistory` of frontend/game/historyManager.js: the items, with Rows
--                 (`insertHeaders`), Narrative (`mapInternalStateToNarrative`) and Snapshots
--                 (`propagateStates` and the item of a final game)
--   Dashboard     `DashboardController` of frontend/controllers/DashboardController.js: the merge of the
--                 lists, with Matching (the search in the stored games) and Loading (what is fetched)
--   Teams         the editor of frontend/controllers/TeamController.js, with Board (the list of
--                 teams) and Loading (its loads)
--   Backup        the reader and the restore of frontend/services/backupManager.js
--   Examples      small games, on which the theorems are applied and the definitions are run
--
-- Conventions. A handler is a function from the state and the payload to the next state; the copies
-- that the source makes before a write are not visible. `applySubstitution`, which raises on a slot
-- that the roster lacks, and `applyLineupUpdate`, which raises on a payload without a roster or subs,
-- return an Option, and so do the reducer and the replay: `none` is one of these exceptions, after
-- which nothing runs. The cells and payloads of the model have the fields that their types list, with
-- an Option where the model follows an absent one: a cell has `paths`, `pathInfo` and
-- `pitchSequence`, as every cell has that the reducer makes. An imported or moved cell without them,
-- on which some places of the source raise and others are guarded, is outside the model, and so is a
-- payload without a field that its handler always gets. An
-- object with computed keys is an association list in the order of insertion. A text that the source
-- tests for truth is "" where it is null or undefined. Positions on a leg count hundredths, so
-- 0.75 is 75. `paths`, `pathInfo` and `outPos` have four entries. The action log stands beside the
-- state (`Game`), since no handler reads it. Numbers that the source keeps as counters are natural
-- numbers; a runner's base is an integer, with -1 for the batter, and a natural number in the list of
-- runners on base, where it is never negative. `Array.sort` is stable, and is
-- modelled by a stable insertion sort with the source's comparator, where NaN counts as equal.
-- `parseInt` reads the leading digits after white space, and is `none` for NaN. An imported game has
-- its id, its date and its team names. Digits of a number are printed with fuel, the number plus
-- one, which is enough since each round divides by ten. Where the reducer raises within `dispatch`,
-- the model stops; the source has then already appended the action to the log.
--
-- The manager is a state and a step for each event. The request of the HTTP queue is two events, its
-- post and its response, and the reading of the response's text is part of the second. A timer may
-- fire at any time, also one that the source has cancelled, and an event of the socket may come at
-- any time; what holds for all sequences of events holds for those of the program. A `gameId` of null
-- is "". An error text is one of the three kinds that the handler tells apart. The revision that the
-- game on show records is left out, as are the listeners. The page has the conflict dialog.
--
-- In the statistics, `current_pa` is none where the source raises, since the key of a cell spells its
-- slot with a zero in front. The object that `aggregatePrecalculatedStats` reads is a list of lines
-- that `calculateGameStats` has given. The rates, which print floating point numbers, are left out.
--
-- In the rights, the user is the id of the one who is signed in, "" for nobody, a missing list of
-- roles is an empty one, and a game and the list of teams are given.
--
-- The search parser takes `toLowerCase` as a parameter. The lineup editor takes the new ids and the
-- stored players of the team as parameters; a move of a player who is not there is `none`, where the
-- source moves undefined.
--
-- In the history of the log, the names that `augmentActionWithNames` writes into the payloads are left
-- out, and `none` is a raised exception.
--
-- On the dashboard `toLowerCase` and the number that `new Date` makes of a text are parameters, an
-- answer of the server or the database is a step of its own, and dates are compared as texts by the
-- codes of their characters, which are those of JavaScript below 0x10000.
--
-- The ids that `generateUUID` makes and `localeCompare` are parameters of the teams; the text of an
-- invitation is given trimmed and in lower case.
--
-- `JSON.parse` of a line of a backup is a parameter. The reader takes fuel, one unit for each round of
-- its loops; more than the characters and chunks of the file is enough.
--
-- Not modelled: the requests for lists, pings, rendering, storage, authentication, the texts of the
-- narrative and the server.
mod Common
pub mod Game
pub mod Outs
pub mod Pitch
pub mod Runners
pub mod Play
pub mod Columns
pub mod Cycle
pub mod Cso
pub mod Bases
pub mod Advances
pub mod Roster
pub mod Edits
pub mod Reducer
pub mod Log
pub mod History
pub mod Dispatch
pub mod Sync
pub mod Stats
pub mod Access
pub mod Search
pub mod Lineup
pub mod Bench
pub mod Feed
pub mod Dashboard
pub mod Teams
pub mod Backup
mod Examples
