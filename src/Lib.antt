-- ===== src/Lib.antt =====
-- The administration backend of the repository: identifiers, sessions, logins, users, permissions,
-- and the helpers that its services share. Paths are from the root of the repository.
--
-- Base holds what the other files share: lists and tests on native numbers, texts as lists of
-- character codes, decimal numerals, the integers of Python with shifts and bitwise operators, and
-- Base.Exec, the coroutines: a function from a state to a result or an error, and the state, which
-- keeps what was written before a raise (backend/common/exception/errors.py).
--
-- Redis is an interface with the documented commands of a server, over which
-- backend/database/redis.py is modelled; Redis.Table is a server of a list, on which the tests run.
-- Keys that run out between two requests are outside of its laws. UserTable is the same for the
-- tables of users and password histories. Other code is a parameter too: Token.Jose (the library
-- jose), Lockout.TimeFormat, Identity.Directory (rows and their JSON), Password.Passwords and
-- Auth.Library (pwdlib), and the plugin in Rbac.RbacSettings. Tests gives an instance of each.
--
-- Snowflake is backend/utils/snowflake.py: `generate` (readings of the clock are a list, and a call
-- that still waits at its end is `waiting`), `parse`, and in Snowflake.Nodes the search for a free
-- node and `init`. Conf and DynamicConfig are the settings of backend/core/conf.py and
-- backend/utils/dynamic_config.py. Token and Identity are backend/common/security/jwt.py. Lockout is
-- backend/app/admin/service/user_password_history_service.py, Auth is auth_service.py beside it,
-- User is user_service.py there for the changes of one user, and Accounts is its `create` and
-- `update`, with the departments and roles. Password is backend/app/admin/utils/password_security.py
-- and UserCache is cache.py beside it. Rbac is backend/common/security/rbac.py, Pool is
-- backend/common/wscore/pool.py, Pagination is backend/common/pagination.py and Tree is
-- backend/utils/build_tree.py.
--
-- Table is a table behind a data access object of backend/app/admin/crud as an interface with the
-- laws of queries, insertions, updates and deletions; Table.Rows is one of a list. Over it stand
-- Dept (backend/app/admin/service/dept_service.py) and Admin, with the services of menus, roles,
-- data scopes and data rules beside it: Admin has their rows and the tables of pairs, Admin.Menus,
-- Admin.Roles and Admin.Scopes their calls, Admin.Steps any sequence of calls. DataPermission is
-- `filter_data_permission` of backend/common/security/permission.py: the tests that the data rules
-- of a user's roles put together. MemoryCache is backend/common/openai/llm/cache/memory.py. Gateway
-- is backend/common/wscore/gateway.py: a registration is `begin_register` and then what follows in
-- `finish_register`, between which another registration can run. Its interface Remote has the
-- documented behaviour of the client's pipelines. Device is backend/common/device/repository.py: the
-- fields of a device in memory and in Redis, and the lists of its alarms; Device.Fields is
-- `get_field` with `_parse_field`.
--
-- A login in Auth runs the checks of Lockout and stores its session by Token; the requests that
-- follow pass Identity and then Rbac; User ends sessions.
--
-- Names of operations are those of the source. A handler with early returns is a `do` block, and its
-- helpers by clauses are named for the condition that they test. Random and clock values are
-- arguments, and so is the order in which a set gives its members. Decimal numerals run on fuel that
-- is one more than the number, which has fewer digits.
--
-- Not modelled: the web framework, SQL beyond the interfaces of the tables, logs, background tasks,
-- and the clients of remote services, which only pass on what others compute; in Device.Fields, what
-- `_parse_model` makes of a dict is an argument, and `_parse_time` and `dumps` are left out. An
-- update of a row writes the fields that a request sets (Table.sent), as the library of the tables
-- documents it.
pub mod Base
pub mod Snowflake
pub mod Redis
pub mod Conf
pub mod Token
pub mod Identity
pub mod DynamicConfig
pub mod Lockout
pub mod Auth
pub mod UserTable
pub mod Password
pub mod User
pub mod Pool
pub mod Pagination
pub mod Rbac
pub mod UserCache
pub mod Tree
pub mod DataPermission
pub mod Table
pub mod Dept
pub mod Admin
pub mod MemoryCache
pub mod Gateway
pub mod Device
pub mod Accounts
pub mod Tests
